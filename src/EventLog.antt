-- ===== src/EventLog.antt =====
-- src/core/event_log.py: the events of a node's account, `TransactionEvent` and `EventLog`.
-- Amounts are whole numbers of the smallest unit, a timestamp is a count of microseconds.
-- The log lines, `__repr__`, the percentage and the formula text that
-- `compute_balance_optimized` reports beside its numbers are left out.
pub mod Invariant
pub mod Query
pub mod Merge
pub mod Balance
pub mod Tests
use mobile_money_simulator.Prelude.{
  ℕ, ◌+◌, String, Bool, true, false, not, ◌&&◌, List, [], ◌∷◌, Option, ltb, nat_beq, if◌then◌else◌,
  ◌==◌, length, elem, nat_eq, string_eq,
}
use mobile_money_simulator.Prelude.Int.{ℤ, pos, ◌+ℤ◌, ◌-ℤ◌}
use mobile_money_simulator.Prelude.Sort.{sort_by}
use mobile_money_simulator.Dict.{Dict, lookup, contains, insert, values}
use mathlib.Core.List.{foldl}

pub data EventType : Type 0 where
  deposit withdraw : EventType

pub record TransactionEvent : Type 0 where
  pub event_id : ℕ
  pub event_type : EventType
  pub amount : ℤ
  pub account_id : ℕ
  pub timestamp : ℕ
  pub node_id : String
  pub request_id : String
  pub is_applied : Bool
  pub version : String
  pub transaction_id : String

pub record EventLog : Type 0 where
  pub events : Dict ℕ TransactionEvent
  pub max_event_id : ℕ
  pub seen_request_ids : List String

abbrev pub empty : EventLog
empty = record { events = []; max_event_id = 0; seen_request_ids = [] }

-- `if s:` for a string
abbrev pub nonempty : String → Bool
nonempty s = not (s == "")

-- The two checks of `add_event`, in its order.
unfoldable pub is_duplicate : TransactionEvent → EventLog → Bool
is_duplicate event log =
    if contains event.event_id log.events
    then true
    else nonempty event.request_id && elem event.request_id log.seen_request_ids

-- `set.add`
abbrev pub add_seen : String → List String → List String
add_seen r seen = if elem r seen then seen else r ∷ seen

-- What `add_event` writes when neither check has refused the event.
unfoldable pub store_event : TransactionEvent → EventLog → EventLog
store_event event log = record {
  events = insert event.event_id event log.events;
  max_event_id = if ltb log.max_event_id event.event_id then event.event_id else log.max_event_id;
  seen_request_ids =
      if nonempty event.request_id
      then add_seen event.request_id log.seen_request_ids
      else log.seen_request_ids;
}

unfoldable pub add_event : TransactionEvent → EventLog → EventLog × Bool
add_event event log = if is_duplicate event log then (log, false) else (store_event event log, true)

-- `add_events` and `merge_events` have one loop: add each event, count those that went in.
abbrev pub counted : ℕ → EventLog × Bool → EventLog × ℕ
counted n (log, added) = (log, if added then n + 1 else n)

unfoldable pub add_loop : List TransactionEvent → EventLog → ℕ → EventLog × ℕ
add_loop [] log count = (log, count)
add_loop (event ∷ rest) log count =
    let (log', count') = counted count (add_event event log) in add_loop rest log' count'

unfoldable pub add_events : List TransactionEvent → EventLog → EventLog × ℕ
unfolding add_loop
add_events events log = add_loop events log 0

unfoldable pub merge_events : List TransactionEvent → EventLog → EventLog × ℕ
unfolding add_loop
merge_events remote_events log = add_loop remote_events log 0

unfoldable pub get_event : ℕ → EventLog → Option TransactionEvent
get_event event_id log = lookup event_id log.events

-- [event for event_id, event in self.events.items() if event_id > after_event_id]
abbrev pub newer : ℕ → Dict ℕ TransactionEvent → List TransactionEvent
newer after [] = []
newer after ((event_id, event) ∷ d) =
    let rest = newer after d in if ltb after event_id then event ∷ rest else rest

abbrev pub by_id : List TransactionEvent → List TransactionEvent
by_id = sort_by (λ e. e.event_id)

unfoldable pub get_events_after : ℕ → EventLog → List TransactionEvent
get_events_after after log = by_id (newer after log.events)

unfoldable pub get_all_events : EventLog → List TransactionEvent
get_all_events log = by_id (values log.events)

-- e.type == event_type
abbrev pub same_type : EventType → EventType → Bool
same_type EventType.deposit EventType.deposit = true
same_type EventType.withdraw EventType.withdraw = true
same_type _ _ = false

abbrev pub of_type : EventType → Dict ℕ TransactionEvent → List TransactionEvent
of_type t [] = []
of_type t ((event_id, event) ∷ d) =
    let rest = of_type t d in if same_type event.event_type t then event ∷ rest else rest

unfoldable pub get_events_by_type : EventType → EventLog → List TransactionEvent
get_events_by_type t log = by_id (of_type t log.events)

-- The body of the loop of `compute_balance`.
abbrev pub apply_event : ℤ → TransactionEvent → ℤ
apply_event balance event = elim event.event_type [
  | EventType.deposit ↦ balance +ℤ event.amount
  | EventType.withdraw ↦ balance -ℤ event.amount
]

unfoldable pub compute_balance : ℤ → ℕ → EventLog → ℤ
compute_balance checkpoint_balance checkpoint_event_id log =
    foldl apply_event checkpoint_balance (get_events_after checkpoint_event_id log)

-- The numbers of the dict that `compute_balance_optimized` returns.
pub record BalanceInfo : Type 0 where
  pub balance : ℤ
  pub deposits_sum : ℤ
  pub withdrawal_amount : ℤ
  pub computation_events : ℕ
  pub total_subsequent_events : ℕ

-- Its loop, on the pair of `deposits_sum` and `computation_events`.
abbrev pub add_deposit : ℤ × ℕ → TransactionEvent → ℤ × ℕ
add_deposit (total, count) event = elim event.event_type [
  | EventType.deposit ↦ (total +ℤ event.amount, count + 1)
  | EventType.withdraw ↦ (total, count)
]

unfoldable pub compute_balance_optimized : ℤ → ℕ → ℤ → EventLog → BalanceInfo
compute_balance_optimized checkpoint_balance checkpoint_event_id last_withdraw_amount log =
    let subsequent = get_events_after checkpoint_event_id log in
    let (deposits_sum, computation_events) = foldl add_deposit (pos 0, 0) subsequent in
    record {
      balance = checkpoint_balance +ℤ deposits_sum -ℤ last_withdraw_amount;
      deposits_sum = deposits_sum;
      withdrawal_amount = last_withdraw_amount;
      computation_events = computation_events;
      total_subsequent_events = length subsequent;
    }

-- The loop of `validate_consistency`, over the ids seen so far.
unfoldable pub validate_loop : Dict ℕ TransactionEvent → List ℕ → Bool
validate_loop [] seen_ids = true
validate_loop ((event_id, event) ∷ d) seen_ids =
    let rest = validate_loop d (event_id ∷ seen_ids) in
    if elem event_id seen_ids then false else if event.event_id == event_id then rest else false

unfoldable pub validate_consistency : EventLog → Bool
unfolding validate_loop
validate_consistency log = validate_loop log.events []
