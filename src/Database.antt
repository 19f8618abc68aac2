-- ===== src/Database.antt =====
-- src/models/__init__.py: the tables that the operations read and write.
-- A table with a key of its own is a dict under that key, a log is a list in the order of
-- insertion. A session that commits keeps its tables; one that rolls back keeps those it started
-- with. The columns that no operation reads or writes, and the tables of the other services, are
-- left out.
pub mod Totals
use mobile_money_simulator.Prelude.{
  ℕ, suc, String, Bool, true, false, ◌||◌, ◌++◌, List, [], ◌∷◌, Option, none, some, if◌then◌else◌,
  ◌==◌, nat_eq, string_eq,
}
use mobile_money_simulator.Prelude.Int.{ℤ, pos, ◌+ℤ◌, ◌-ℤ◌}
use mobile_money_simulator.Dict.{Dict, lookup, insert, contains}
use mobile_money_simulator.VectorClock.{Clock}
use mobile_money_simulator.Events.{EventType}

pub record Account : Type 0 where
  pub account_id : ℕ
  pub phone_number : String
  pub account_holder_name : String
  pub balance : ℤ
  pub currency : String
  pub account_status : String
  pub created_by_server : String
  pub last_modified_by_server : Option String
  pub version : ℕ

pub data TransactionType : Type 0 where
  withdraw deposit transfer_out transfer_in : TransactionType

pub record Transaction : Type 0 where
  pub transaction_id : ℕ
  pub request_id : String
  pub account_id : ℕ
  pub phone_number : String
  pub transaction_type : TransactionType
  pub amount : ℤ
  pub balance_before : ℤ
  pub balance_after : ℤ
  pub created_at : ℕ
  pub server_id : String

pub data RequestStatus : Type 0 where
  received processing completed failed : RequestStatus

pub record AccountLock : Type 0 where
  pub account_id : ℕ
  pub lock_holder_server : String
  pub request_id : String
  pub expires_at : ℕ

-- A row of the table of replicated events.
pub record EventRecord : Type 0 where
  pub event_id : String
  pub event_type : EventType
  pub account_id : ℕ
  pub request_id : String
  pub amount : ℤ
  pub balance_before : ℤ
  pub balance_after : ℤ
  pub vector_clock : Clock
  pub server_id : String
  pub timestamp : ℕ
  pub client_reference : Option String
  pub is_applied : Bool
  pub is_replicated : Bool

pub record ReplicationState : Type 0 where
  pub event_id : String
  pub server_id : String
  pub acked : Bool
  pub acked_at : ℕ

pub record Database : Type 0 where
  pub accounts : Dict ℕ Account
  pub transactions : List Transaction
  pub locks : List AccountLock
  pub events : List EventRecord
  pub replication_states : List ReplicationState

-- query(Account).filter(Account.phone_number == phone_number).first()
abbrev pub account_by_phone : String → Dict ℕ Account → Option Account
account_by_phone phone_number [] = none
account_by_phone phone_number ((account_id, a) ∷ d) =
    let rest = account_by_phone phone_number d in
    if a.phone_number == phone_number then some a else rest

-- Whether a row has the request id, which is unique among transactions.
abbrev pub has_request : String → List Transaction → Bool
has_request request_id [] = false
has_request request_id (t ∷ ts) = t.request_id == request_id || has_request request_id ts

-- A transaction whose request id is taken makes the commit raise.
unfoldable pub add_transaction : Transaction → Database → Option Database
add_transaction t db =
    if has_request t.request_id db.transactions
    then none
    else some (record db { transactions = db.transactions ++ t ∷ [] })

-- What an update by `withdraw`, `deposit` or `transfer` writes to an account.
abbrev pub with_balance : String → ℤ → Account → Account
with_balance server_id balance a = record a {
  balance = balance;
  version = suc a.version;
  last_modified_by_server = some server_id;
}
