-- ===== src/Operations/Transfer.antt =====
-- `AccountOperations.transfer`: a debit, a credit, two events and two transactions in one commit.
use mobile_money_simulator.Prelude.{
  ℕ, String, Bool, false, not, Option, none, some, nat_beq, if◌then◌else◌, ◌==◌, nat_eq, string_eq,
}
use mobile_money_simulator.Prelude.Int.{ℤ, pos, ◌+ℤ◌, ◌-ℤ◌, ltb_ℤ, leb_ℤ}
use mobile_money_simulator.Dict.{lookup}
use mobile_money_simulator.VectorClock.{Clock}
use mobile_money_simulator.Events.{
  Event, append, applied, mark_applied, create_transfer_out_event, create_transfer_in_event,
}
use mobile_money_simulator.Replication.{queue_event}
use mobile_money_simulator.Database.{
  Account, Transaction, TransactionType, Database, add_transaction, account_by_phone,
}
use mobile_money_simulator.Operations.{Server, Context, TransferReceipt, Reply}
use mobile_money_simulator.Operations.Single.{debit, credit, raise_clock, sourced_id, finish}
use Prim.Native.String.{◌++◌}

-- A transfer's arguments, with the uuids of its events and the ids of its transactions.
pub record TransferCall : Type 0 where
  pub out_uuid : String
  pub in_uuid : String
  pub out_transaction_id : ℕ
  pub in_transaction_id : ℕ
  pub from_account_id : ℕ
  pub from_phone_number : String
  pub to_phone_number : String
  pub amount : ℤ
  pub request_id : String

abbrev pub store_and_queue_both : Event → Event → Server → Server
store_and_queue_both e f s =
    let store = (append f (append e s.event_store).0).0 in
    record s {
      event_store = (mark_applied f.event_id (mark_applied e.event_id store).0).0;
      replication_manager = queue_event (applied f) (queue_event (applied e) s.replication_manager);
    }

unfoldable pub source_events : Event → Event → Server → Server
source_events e f s = if s.event_sourcing then raise_clock (store_and_queue_both e f s) else s

abbrev pub out_event : Context → TransferCall → Account → Clock → Event
out_event c call a clock =
    create_transfer_out_event call.out_uuid c.now call.from_account_id call.request_id call.amount
      (a.balance +ℤ call.amount) a.balance c.server_id clock none none

abbrev pub in_event : Context → TransferCall → Account → Clock → Event
in_event c call b clock =
    create_transfer_in_event call.in_uuid c.now b.account_id call.request_id call.amount
      (b.balance -ℤ call.amount) b.balance c.server_id clock none none

abbrev pub out_booking : Context → TransferCall → Account → Transaction
out_booking c call a = record {
  transaction_id = call.out_transaction_id;
  request_id = call.request_id;
  account_id = call.from_account_id;
  phone_number = call.from_phone_number;
  transaction_type = TransactionType.transfer_out;
  amount = call.amount;
  balance_before = a.balance +ℤ call.amount;
  balance_after = a.balance;
  created_at = c.now;
  server_id = c.server_id;
}

abbrev pub in_booking : Context → TransferCall → ℕ → Account → Transaction
in_booking c call to_account_id b = record {
  transaction_id = call.in_transaction_id;
  request_id = call.request_id ++ "_to";
  account_id = to_account_id;
  phone_number = call.to_phone_number;
  transaction_type = TransactionType.transfer_in;
  amount = call.amount;
  balance_before = b.balance -ℤ call.amount;
  balance_after = b.balance;
  created_at = c.now;
  server_id = c.server_id;
}

abbrev pub add_second : Transaction → Option Database → Option Database
add_second t none = none
add_second t (some db) = add_transaction t db

abbrev pub transfer_receipt : Context → TransferCall → Account → Account → Server → TransferReceipt
transfer_receipt c call a b s = record {
  from_phone = call.from_phone_number;
  to_phone = call.to_phone_number;
  amount = call.amount;
  from_balance_after = a.balance;
  to_balance_after = b.balance;
  timestamp = c.now;
  out_event_id = sourced_id call.out_uuid s;
  in_event_id = sourced_id call.in_uuid s;
}

-- From the two accounts as they are after the updates, in the updated tables.
unfoldable pub transfer_commit :
    Option Account
    → Option Account
    → Context
    → TransferCall
    → ℕ
    → Database
    → Server
    → Server × (Bool × Reply)
unfolding create_transfer_out_event create_transfer_in_event source_events add_transaction
transfer_commit (some a) (some b) c call to_account_id db s =
    let clock = s.replication_manager.gossip_node.vector_clock in
    finish
      (add_second (in_booking c call to_account_id b) (add_transaction (out_booking c call a) db))
      (Reply.transfer_successful (transfer_receipt c call a b s))
      (source_events (out_event c call a clock) (in_event c call b clock) s)
transfer_commit none b c call to_account_id db s = (s, (false, Reply.failed))
transfer_commit (some a) none c call to_account_id db s = (s, (false, Reply.failed))

abbrev pub transfer_credited :
    Context → TransferCall → ℕ → Server → Database × ℕ → Server × (Bool × Reply)
transfer_credited c call to_account_id s (db, updated_to) =
    if nat_beq updated_to 0
    then (s, (false, Reply.concurrent_update))
    else transfer_commit (lookup call.from_account_id db.accounts)
        (lookup to_account_id db.accounts) c call to_account_id db s

abbrev pub transfer_debited :
    Context → TransferCall → ℕ → Server → Database × ℕ → Server × (Bool × Reply)
transfer_debited c call to_account_id s (db, updated_from) =
    if nat_beq updated_from 0
    then (s, (false, Reply.concurrent_update))
    else transfer_credited c call to_account_id s (credit c to_account_id call.amount db)

abbrev pub transfer_to :
    Option Account → Account → Context → TransferCall → Server → Server × (Bool × Reply)
transfer_to none a c call s = (s, (false, Reply.destination_not_found))
transfer_to (some b) a c call s =
    if not (b.account_status == "active")
    then (s, (false, Reply.destination_is b.account_status))
    else if ltb_ℤ a.balance call.amount
    then (s, (false, Reply.insufficient_balance a.balance call.amount))
    else transfer_debited c call b.account_id s
        (debit c call.from_account_id call.amount s.database)

abbrev pub transfer_from :
    Option Account → Context → TransferCall → Server → Server × (Bool × Reply)
transfer_from none c call s = (s, (false, Reply.source_not_found))
transfer_from (some a) c call s =
    if not (a.account_status == "active")
    then (s, (false, Reply.source_is a.account_status))
    else transfer_to (account_by_phone call.to_phone_number s.database.accounts) a c call s

unfoldable pub transfer : Context → TransferCall → Server → Server × (Bool × Reply)
transfer c call s =
    if leb_ℤ call.amount (pos 0)
    then (s, (false, Reply.amount_not_positive))
    else transfer_from (lookup call.from_account_id s.database.accounts) c call s
