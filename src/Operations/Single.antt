-- ===== src/Operations/Single.antt =====
-- `AccountOperations.withdraw` and `deposit`. A call reads the account, updates it, hands an event
-- to event sourcing, and commits with a transaction; event sourcing is outside the database, so a
-- rollback does not undo it. The uuid of the event and the id that the database gives to the
-- transaction are arguments. The account is looked up again after the update, as in the source.
use mobile_money_simulator.Prelude.{
  ℕ, String, Bool, true, false, not, ◌&&◌, Option, none, some, nat_beq, if◌then◌else◌, ◌==◌, nat_eq,
  string_eq,
}
use mobile_money_simulator.Prelude.Int.{ℤ, pos, ◌+ℤ◌, ◌-ℤ◌, ltb_ℤ, leb_ℤ}
use mobile_money_simulator.Dict.{lookup, insert}
use mobile_money_simulator.Events.{
  Event, append, applied, mark_applied, create_withdraw_event, create_deposit_event,
}
use mobile_money_simulator.Gossip.{increment_vector_clock}
use mobile_money_simulator.Replication.{queue_event}
use mobile_money_simulator.Database.{
  Account, Transaction, TransactionType, Database, add_transaction, with_balance,
}
use mobile_money_simulator.Operations.{Server, Context, Receipt, Reply}

-- `UPDATE accounts … WHERE account_id = … AND balance >= amount AND account_status = 'active'`,
-- with the number of rows that it changed
abbrev pub debit_row : Option Account → Context → ℕ → ℤ → Database → Database × ℕ
debit_row none c k amount db = (db, 0)
debit_row (some a) c k amount db =
    if leb_ℤ amount a.balance && a.account_status == "active"
    then (
      record db {
        accounts = insert k (with_balance c.server_id (a.balance -ℤ amount) a) db.accounts;
      },
      1,
    )
    else (db, 0)

unfoldable pub debit : Context → ℕ → ℤ → Database → Database × ℕ
debit c k amount db = debit_row (lookup k db.accounts) c k amount db

abbrev pub credit_row : Option Account → Context → ℕ → ℤ → Database → Database × ℕ
credit_row none c k amount db = (db, 0)
credit_row (some a) c k amount db =
    if a.account_status == "active"
    then (
      record db {
        accounts = insert k (with_balance c.server_id (a.balance +ℤ amount) a) db.accounts;
      },
      1,
    )
    else (db, 0)

-- The update without the condition on the balance.
unfoldable pub credit : Context → ℕ → ℤ → Database → Database × ℕ
credit c k amount db = credit_row (lookup k db.accounts) c k amount db

-- Append the event, mark it applied, queue it for replication. The store and the queue share the
-- event, which is applied when it is queued.
abbrev pub store_and_queue : Event → Server → Server
store_and_queue e s = record s {
  event_store = (mark_applied e.event_id (append e s.event_store).0).0;
  replication_manager = queue_event (applied e) s.replication_manager;
}

-- `gossip_node.increment_vector_clock()`
abbrev pub raise_clock : Server → Server
raise_clock s = record s {
  replication_manager = record s.replication_manager {
    gossip_node = increment_vector_clock s.replication_manager.gossip_node;
  };
}

unfoldable pub source_event : Event → Server → Server
source_event e s = if s.event_sourcing then raise_clock (store_and_queue e s) else s

-- `if event_id:` for the id of an event, if there was one
abbrev pub sourced_id : String → Server → Option String
sourced_id uuid s = if s.event_sourcing then some uuid else none

-- The commit: the tables with the transaction, or the tables from before the call.
abbrev pub finish : Option Database → Reply → Server → Server × (Bool × Reply)
finish none reply s = (s, (false, Reply.failed))
finish (some db) reply s = (record s { database = db }, (true, reply))

abbrev pub receipt : Context → ℕ → ℤ → ℤ → String → Server → Receipt
receipt c transaction_id amount balance_after uuid s = record {
  transaction_id = transaction_id;
  amount = amount;
  balance_after = balance_after;
  timestamp = c.now;
  event_id = sourced_id uuid s;
}

-- A call's arguments.
pub record Call : Type 0 where
  pub uuid : String
  pub transaction_id : ℕ
  pub account_id : ℕ
  pub phone_number : String
  pub amount : ℤ
  pub request_id : String

abbrev pub booking : Context → Call → TransactionType → ℤ → ℤ → Transaction
booking c call transaction_type before after = record {
  transaction_id = call.transaction_id;
  request_id = call.request_id;
  account_id = call.account_id;
  phone_number = call.phone_number;
  transaction_type = transaction_type;
  amount = call.amount;
  balance_before = before;
  balance_after = after;
  created_at = c.now;
  server_id = c.server_id;
}

abbrev pub withdraw_event : Context → Call → Account → Server → Event
withdraw_event c call a s =
    create_withdraw_event call.uuid c.now call.account_id call.request_id call.amount
      (a.balance +ℤ call.amount) a.balance c.server_id
      s.replication_manager.gossip_node.vector_clock (some a.phone_number)
      (some a.account_holder_name)

-- From the account as it is after the update, in the updated tables.
unfoldable pub withdraw_commit :
    Option Account → Context → Call → Database → Server → Server × (Bool × Reply)
unfolding create_withdraw_event source_event add_transaction
withdraw_commit none c call db s = (s, (false, Reply.failed))
withdraw_commit (some a) c call db s =
    finish
      (add_transaction
        (booking c call TransactionType.withdraw (a.balance +ℤ call.amount) a.balance) db)
      (Reply.withdrawal_successful
        (receipt c call.transaction_id call.amount a.balance call.uuid s))
      (source_event (withdraw_event c call a s) s)

abbrev pub withdraw_updated : Context → Call → Server → Database × ℕ → Server × (Bool × Reply)
withdraw_updated c call s (db, updated_count) =
    if nat_beq updated_count 0
    then (s, (false, Reply.concurrent_update))
    else withdraw_commit (lookup call.account_id db.accounts) c call db s

abbrev pub withdraw_checked : Option Account → Context → Call → Server → Server × (Bool × Reply)
withdraw_checked none c call s = (s, (false, Reply.account_not_found))
withdraw_checked (some a) c call s =
    if not (a.account_status == "active")
    then (s, (false, Reply.account_is a.account_status))
    else if ltb_ℤ a.balance call.amount
    then (s, (false, Reply.insufficient_balance a.balance call.amount))
    else withdraw_updated c call s (debit c call.account_id call.amount s.database)

unfoldable pub withdraw : Context → Call → Server → Server × (Bool × Reply)
withdraw c call s =
    if leb_ℤ call.amount (pos 0)
    then (s, (false, Reply.amount_not_positive))
    else withdraw_checked (lookup call.account_id s.database.accounts) c call s

abbrev pub deposit_event : Context → Call → Account → Server → Event
deposit_event c call a s =
    create_deposit_event call.uuid c.now call.account_id call.request_id call.amount
      (a.balance -ℤ call.amount) a.balance c.server_id
      s.replication_manager.gossip_node.vector_clock (some a.phone_number)
      (some a.account_holder_name)

unfoldable pub deposit_commit :
    Option Account → Context → Call → Database → Server → Server × (Bool × Reply)
unfolding create_deposit_event source_event add_transaction
deposit_commit none c call db s = (s, (false, Reply.failed))
deposit_commit (some a) c call db s =
    finish
      (add_transaction (booking c call TransactionType.deposit (a.balance -ℤ call.amount) a.balance)
        db)
      (Reply.deposit_received (receipt c call.transaction_id call.amount a.balance call.uuid s))
      (source_event (deposit_event c call a s) s)

abbrev pub deposit_updated : Context → Call → Server → Database × ℕ → Server × (Bool × Reply)
deposit_updated c call s (db, updated_count) =
    if nat_beq updated_count 0
    then (s, (false, Reply.concurrent_update))
    else deposit_commit (lookup call.account_id db.accounts) c call db s

abbrev pub deposit_checked : Option Account → Context → Call → Server → Server × (Bool × Reply)
deposit_checked none c call s = (s, (false, Reply.account_not_found))
deposit_checked (some a) c call s =
    if not (a.account_status == "active")
    then (s, (false, Reply.account_is a.account_status))
    else deposit_updated c call s (credit c call.account_id call.amount s.database)

unfoldable pub deposit : Context → Call → Server → Server × (Bool × Reply)
deposit c call s =
    if leb_ℤ call.amount (pos 0)
    then (s, (false, Reply.amount_not_positive))
    else deposit_checked (lookup call.account_id s.database.accounts) c call s
