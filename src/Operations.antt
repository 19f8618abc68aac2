-- ===== src/Operations.antt =====
-- src/core/operations.py: account lookup, locks, and the read-only operations. Withdrawals and
-- deposits are in Operations/Single, transfers in Transfer, the last transactions in History.
-- A message for the user is a `Reply` with the values that the text holds. The readings of the
-- clock within one call are one argument. The answer to an exception is `failed`.
pub mod Single
pub mod Transfer
pub mod Ledger
pub mod Transfers
pub mod Accounting
pub mod Errors
pub mod Locks
pub mod Held
pub mod History
pub mod Tests
use mobile_money_simulator.Prelude.{
  ℕ, ◌+◌, ◌*◌, String, Bool, true, false, not, ◌&&◌, ◌||◌, ◌++◌, List, [], ◌∷◌, Option, none, some,
  ltb, leb, nat_beq, if◌then◌else◌, ◌==◌, keep_if, length, nat_eq, string_eq,
}
use mobile_money_simulator.Prelude.Int.{ℤ}
use mobile_money_simulator.Prelude.Sort.{sort_by}
use mobile_money_simulator.Dict.{Dict, lookup}
use mobile_money_simulator.EventLog.{nonempty}
use mobile_money_simulator.Events.{EventStore}
use mobile_money_simulator.Replication.{Manager}
use mobile_money_simulator.Database.{Account, Transaction, AccountLock, Database, account_by_phone}

-- What a server keeps: its tables, and the parts of event sourcing, if they were started.
pub record Server : Type 0 where
  pub database : Database
  pub event_store : EventStore
  pub replication_manager : Manager
  pub event_sourcing : Bool

-- The server's id and the time of a call.
pub record Context : Type 0 where
  pub server_id : String
  pub now : ℕ

pub record Receipt : Type 0 where
  pub transaction_id : ℕ
  pub amount : ℤ
  pub balance_after : ℤ
  pub timestamp : ℕ
  pub event_id : Option String

pub record TransferReceipt : Type 0 where
  pub from_phone : String
  pub to_phone : String
  pub amount : ℤ
  pub from_balance_after : ℤ
  pub to_balance_after : ℤ
  pub timestamp : ℕ
  pub out_event_id : Option String
  pub in_event_id : Option String

pub data Reply : Type 0 where
  amount_not_positive account_not_found : Reply
  account_is : String → Reply
  insufficient_balance : ℤ → ℤ → Reply
  concurrent_update failed : Reply
  withdrawal_successful deposit_received : Receipt → Reply
  source_not_found destination_not_found : Reply
  source_is destination_is : String → Reply
  transfer_successful : TransferReceipt → Reply
  balance_retrieved : ℤ → String → ℕ → Reply
  transactions_retrieved : List Transaction → ℕ → Reply

pub data Resolution : Type 0 where
  found_by_phone found_by_id : Account → Resolution
  no_phone no_account nothing_given : Resolution

abbrev phone_result : Option Account → Resolution
phone_result none = Resolution.no_phone
phone_result (some a) = Resolution.found_by_phone a

abbrev id_result : Option Account → Resolution
id_result none = Resolution.no_account
id_result (some a) = Resolution.found_by_id a

-- A missing id, and the id 0, are false in Python.
abbrev pub resolve_by_id : Option ℕ → Database → Resolution
resolve_by_id none db = Resolution.nothing_given
resolve_by_id (some k) db =
    if nat_beq k 0 then Resolution.nothing_given else id_result (lookup k db.accounts)

-- So are a missing and an empty phone number.
unfoldable pub resolve_account : Option ℕ → Option String → Database → Resolution
resolve_account account_id none db = resolve_by_id account_id db
resolve_account account_id (some phone) db =
    if nonempty phone
    then phone_result (account_by_phone phone db.accounts)
    else resolve_by_id account_id db

-- The lock of the account that has not expired.
abbrev pub live_lock : ℕ → ℕ → List AccountLock → Option AccountLock
live_lock now account_id [] = none
live_lock now account_id (l ∷ ls) =
    let rest = live_lock now account_id ls in
    if nat_beq l.account_id account_id && ltb now l.expires_at then some l else rest

abbrev pub has_lock : ℕ → List AccountLock → Bool
has_lock account_id [] = false
has_lock account_id (l ∷ ls) = nat_beq l.account_id account_id || has_lock account_id ls

pub data LockReply : Type 0 where
  lock_acquired lock_failed : LockReply
  locked_by : String → LockReply

-- The locks without the expired ones of the account, and with a new one. The account's id is
-- unique among the locks, so the commit raises if one is left.
abbrev pub with_lock : AccountLock → List AccountLock → Option (List AccountLock)
with_lock lock locks = if has_lock lock.account_id locks then none else some (locks ++ lock ∷ [])

abbrev pub lock_result : Option (List AccountLock) → Database → Database × (Bool × LockReply)
lock_result none db = (db, (false, LockReply.lock_failed))
lock_result (some locks) db = (record db { locks = locks }, (true, LockReply.lock_acquired))

abbrev pub new_lock : Context → ℕ → String → ℕ → AccountLock
new_lock c account_id request_id timeout = record {
  account_id = account_id;
  lock_holder_server = c.server_id;
  request_id = request_id;
  expires_at = c.now + timeout * 1000000;
}

abbrev pub is_expired_of : ℕ → ℕ → AccountLock → Bool
is_expired_of now account_id l = nat_beq l.account_id account_id && leb l.expires_at now

abbrev pub try_lock :
    Option AccountLock → Context → ℕ → String → ℕ → Database → Database × (Bool × LockReply)
try_lock (some l) c account_id request_id timeout db =
    (db, (false, LockReply.locked_by l.lock_holder_server))
try_lock none c account_id request_id timeout db =
    lock_result
      (with_lock (new_lock c account_id request_id timeout)
        (keep_if (λ l. not (is_expired_of c.now account_id l)) db.locks))
      db

unfoldable pub acquire_lock : Context → ℕ → String → ℕ → Database → Database × (Bool × LockReply)
acquire_lock c account_id request_id timeout db =
    try_lock (live_lock c.now account_id db.locks) c account_id request_id timeout db

abbrev pub is_held_by : ℕ → String → AccountLock → Bool
is_held_by account_id request_id l = nat_beq l.account_id account_id && l.request_id == request_id

unfoldable pub release_lock : ℕ → String → Database → Database × Bool
release_lock account_id request_id db = (
  record db { locks = keep_if (λ l. not (is_held_by account_id request_id l)) db.locks },
  ltb 0 (length (keep_if (is_held_by account_id request_id) db.locks)),
)

abbrev balance_reply : ℕ → Option Account → Bool × Reply
balance_reply now none = (false, Reply.account_not_found)
balance_reply now (some a) =
    if a.account_status == "active"
    then (true, Reply.balance_retrieved a.balance a.currency now)
    else (false, Reply.account_is a.account_status)

unfoldable pub check_balance : Context → ℕ → Database → Bool × Reply
check_balance c account_id db = balance_reply c.now (lookup account_id db.accounts)
