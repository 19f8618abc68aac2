-- ===== src/Operations/Tests.antt =====
-- A server with two accounts, and inputs that meet the hypotheses of the theorems about operations.
use mobile_money_simulator.Prelude.{
  ℕ, String, ◌≡◌, refl, true, false, [], ◌∷◌, ◌++◌, Option, none, some, arith, nat_eq, string_eq,
}
use mobile_money_simulator.Prelude.Int.{ℤ, pos, ◌+ℤ◌, ◌-ℤ◌, int_laws}
use mobile_money_simulator.Dict.{lookup}
use mobile_money_simulator.Events.{get_event, applied}
use mobile_money_simulator.Events
use mobile_money_simulator.Gossip.{GossipNode}
use mobile_money_simulator.Replication.{Manager}
use mobile_money_simulator.Database.{Account, TransactionType, Database, with_balance}
use mobile_money_simulator.Database.Totals.{total}
use mobile_money_simulator.Operations.{
  Server, Context, Reply, LockReply, release_lock, acquire_lock, live_lock, check_balance,
  resolve_account, Resolution,
}
use mobile_money_simulator.Operations.Single.{
  Call, debit, credit, withdraw, deposit, deposit_commit, withdraw_event, booking,
}
use mobile_money_simulator.Operations.Transfer.{TransferCall, transfer, transfer_commit}
use mobile_money_simulator.Operations.Errors.{
  CanWithdraw, account_after, withdraw_succeeds, withdraw_repeated,
}
use mobile_money_simulator.Operations.Held.{
  Run as LockRun, Step as LockStep, acquire_lock_exclusive,
}
use mobile_money_simulator.Operations.Accounting.{IsSound, Run, Step, Run-IsSound, transfer-total}

abbrev pub account : ℕ → String → ℤ → Account
account k phone balance = record {
  account_id = k;
  phone_number = phone;
  account_holder_name = "holder";
  balance = balance;
  currency = "KES";
  account_status = "active";
  created_by_server = "s1";
  last_modified_by_server = none;
  version = 1;
}

abbrev pub database : Database
database = record {
  accounts = (1, account 1 "0711" (pos 100)) ∷ (2, account 2 "0722" (pos 20)) ∷ [];
  transactions = [];
  locks = [];
  events = [];
  replication_states = [];
}

abbrev pub node : GossipNode
node = record {
  server_id = "s1";
  host = "localhost";
  port = 8001;
  heartbeat_timeout_sec = 10;
  vector_clock = ("s1", 0) ∷ ("s2", 0) ∷ [];
  peers = [];
  pending_event_ids = [];
}

abbrev pub manager : Manager
manager = record {
  gossip_node = node;
  server_id = "s1";
  batch_size = 2;
  pending_replication = [];
  conflict_log = [];
}

abbrev pub server : Server
server = record {
  database = database;
  event_store = Events.empty;
  replication_manager = manager;
  event_sourcing = true;
}

abbrev pub context : Context
context = record { server_id = "s1"; now = 5 }

abbrev pub call : Call
call = record {
  uuid = "u1";
  transaction_id = 1;
  account_id = 1;
  phone_number = "0711";
  amount = pos 30;
  request_id = "r1";
}

abbrev pub transfer_call : TransferCall
transfer_call = record {
  out_uuid = "u2";
  in_uuid = "u3";
  out_transaction_id = 2;
  in_transaction_id = 3;
  from_account_id = 1;
  from_phone_number = "0711";
  to_phone_number = "0722";
  amount = pos 40;
  request_id = "r2";
}

abbrev pub balance_or_zero : Option Account → ℤ
balance_or_zero none = pos 0
balance_or_zero (some a) = a.balance

abbrev opening : ℕ → ℤ
opening k = balance_or_zero (lookup k database.accounts)

server-IsSound : IsSound opening server.database
server-IsSound = record {
  explained = λ k a found. rw (found, opening) (no_change a.balance);
  solvent = (omega arith, (omega arith, tt));
  distinct = tt;
}
  where
    no_change : (x : ℤ) → x ≡ x +ℤ pos 0
    no_change x = omega int_laws

Run-IsSound_example :
    IsSound opening (transfer context transfer_call (withdraw context call server).0).0.database
Run-IsSound_example =
    Run-IsSound opening server (transfer context transfer_call (withdraw context call server).0).0
      server-IsSound
      (Run.later (Run.later Run.start (Step.withdrawn context call))
        (Step.transferred context transfer_call))

transfer-total_example :
    (total (transfer context transfer_call server).0.database.accounts ≡ total database.accounts)
    × ((transfer context transfer_call server).1.0 ≡ false
        → (transfer context transfer_call server).0.database ≡ database)
transfer-total_example = transfer-total context transfer_call server

abbrev can_withdraw : CanWithdraw call server
can_withdraw = record {
  account = account 1 "0711" (pos 100);
  found = refl;
  positive = refl;
  active = refl;
  enough = refl;
}

withdraw_succeeds_example :
    let r = withdraw context call server in
    let a = with_balance "s1" (pos 100 -ℤ pos 30) (account 1 "0711" (pos 100)) in
    (r.1.0 ≡ true)
    × (lookup 1 r.0.database.accounts ≡ some a)
    × (a.balance ≡ pos 100 -ℤ pos 30)
    × (r.0.database.transactions
        ≡ [] ++ booking context call TransactionType.withdraw (pos 100) a.balance ∷ [])
withdraw_succeeds_example = withdraw_succeeds context call server can_withdraw refl

abbrev booked_server : Server
booked_server = record server {
  database = record database {
    transactions = booking context call TransactionType.deposit (pos 70) (pos 100) ∷ [];
  };
}

abbrev can_withdraw_again : CanWithdraw call booked_server
can_withdraw_again = record {
  account = account 1 "0711" (pos 100);
  found = refl;
  positive = refl;
  active = refl;
  enough = refl;
}

withdraw_repeated_example :
    let r = withdraw context call booked_server in
    let e = applied (
      withdraw_event context call
        (account_after context call booked_server can_withdraw_again)
        booked_server) in
    (r.1 ≡ (false, Reply.failed))
    × (r.0.database ≡ booked_server.database)
    × (get_event "u1" r.0.event_store ≡ some e)
    × (r.0.replication_manager.pending_replication ≡ [] ++ e ∷ [])
    × (e.balance_after ≡ some (pos 100 -ℤ pos 30))
withdraw_repeated_example =
    withdraw_repeated context call booked_server can_withdraw_again refl refl

acquired_first : (acquire_lock context 1 "r1" 3 database).1.0 ≡ true
unfolding acquire_lock
acquired_first = refl

-- A release under another request id comes in between.
acquire_lock_exclusive_example :
    let db' = (acquire_lock context 1 "r1" 3 database).0 in
    let v = (release_lock 1 "r2" db').0 in
    (live_lock 5 1 [] ≡ none)
    × (acquire_lock context 1 "r2" 9 v ≡ (v, (false, LockReply.locked_by "s1")))
acquire_lock_exclusive_example =
    let db' = (acquire_lock context 1 "r1" 3 database).0 in
    acquire_lock_exclusive context context 1 3 9 "r1" "r2" database (release_lock 1 "r2" db').0
      acquired_first (LockRun.next LockRun.here (LockStep.released 1 "r2" refl)) refl

outcomes :
    ((deposit context call server).1.0 ≡ true)
    × ((transfer context transfer_call server).1.0 ≡ true)
    × (check_balance context 3 database ≡ (false, Reply.account_not_found))
    × (resolve_account (some 2) (some "") database
        ≡ Resolution.found_by_id (account 2 "0722" (pos 20)))
unfolding deposit transfer check_balance resolve_account credit deposit_commit debit transfer_commit
outcomes = (refl, refl, refl, refl)
