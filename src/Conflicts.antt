-- ===== src/Conflicts.antt =====
-- src/core/conflict_resolver.py: the strategies that choose between two events, and the tests of
-- `ConflictResolver`. The texts that describe a conflict and the log lines are left out.
pub mod Order
mod Tests
use mobile_money_simulator.Prelude.{
  ℕ, String, Bool, true, false, not, ◌&&◌, ◌||◌, List, [], ◌∷◌, Option, none, some, ltb, nat_beq,
  leb, length, keep_if, if◌then◌else◌, nat_eq,
}
use mobile_money_simulator.Prelude.Int.{ℤ, ltb_ℤ, beq_ℤ}
use mobile_money_simulator.Dict.{Dict, insert}
use mobile_money_simulator.Events.{Event, EventType}
use mobile_money_simulator.Replication.Receive.{is_greater}
use Prim.Native.String.{compare}

-- `LastWriteWinsStrategy.resolve`: the later event, and of equal times the greater server id.
unfoldable pub last_write_wins : Event → Event → Event
last_write_wins event1 event2 =
    if ltb event2.timestamp event1.timestamp
    then event1
    else if ltb event1.timestamp event2.timestamp
    then event2
    else if is_greater (compare event1.server_id event2.server_id)
    then event1
    else event2

abbrev pub is_out : EventType → Bool
is_out EventType.transfer_out = true
is_out _ = false

abbrev pub is_in : EventType → Bool
is_in EventType.transfer_in = true
is_in _ = false

-- `CompensationStrategy.resolve`: a debit of a transfer without its credit loses.
unfoldable pub compensation : Event → Event → Event
unfolding last_write_wins
compensation event1 event2 =
    if is_out event1.event_type && not (is_in event2.event_type)
    then event2
    else if is_out event2.event_type && not (is_in event1.event_type)
    then event1
    else last_write_wins event1 event2

abbrev pub priority : EventType → ℕ
priority EventType.transfer_out = 3
priority EventType.transfer_in = 3
priority EventType.withdraw = 2
priority EventType.deposit = 1
priority EventType.account_created = 0

-- `OperationTypeStrategy.resolve`
unfoldable pub operation_type : Event → Event → Event
unfolding last_write_wins
operation_type event1 event2 =
    if ltb (priority event2.event_type) (priority event1.event_type)
    then event1
    else if ltb (priority event1.event_type) (priority event2.event_type)
    then event2
    else last_write_wins event1 event2

pub data Strategy : Type 0 where
  last_write by_compensation by_operation_type : Strategy

pub record ConflictResolver : Type 0 where
  pub strategy : Strategy
  pub conflict_history : Dict ℕ Event

unfoldable pub new_resolver : ConflictResolver
new_resolver = record { strategy = Strategy.last_write; conflict_history = [] }

unfoldable pub set_strategy : Strategy → ConflictResolver → ConflictResolver
set_strategy s r = record r { strategy = s }

unfoldable pub resolve : Strategy → Event → Event → Event
unfolding last_write_wins compensation operation_type
resolve Strategy.last_write event1 event2 = last_write_wins event1 event2
resolve Strategy.by_compensation event1 event2 = compensation event1 event2
resolve Strategy.by_operation_type event1 event2 = operation_type event1 event2

unfoldable pub detect_balance_conflict : ℤ → ℤ → Bool
detect_balance_conflict expected_balance actual_balance =
    not (beq_ℤ expected_balance actual_balance)

-- Whether the second event sorts before the first one, by (timestamp, server_id).
abbrev pub sorts_before : Event → Event → Bool
sorts_before event2 event1 =
    if ltb event2.timestamp event1.timestamp
    then true
    else nat_beq event2.timestamp event1.timestamp
      && is_greater (compare event1.server_id event2.server_id)

-- The last event of the sorted list: of those with one key, the last.
abbrev pub latest : Event → List Event → Event
latest best [] = best
latest best (e ∷ es) = latest (if sorts_before e best then best else e) es

-- The resolved balance, if the winner has one, and the resolver with the winner in its history.
unfoldable pub resolve_balance_conflict :
    ℕ → List Event → ℤ → ConflictResolver → ConflictResolver × Option ℤ
resolve_balance_conflict account_id [] current_balance r = (r, some current_balance)
resolve_balance_conflict account_id (e ∷ []) current_balance r = (r, some current_balance)
resolve_balance_conflict account_id (e ∷ f ∷ es) current_balance r =
    let winning_event = latest e (f ∷ es) in
    (
      record r { conflict_history = insert account_id winning_event r.conflict_history },
      winning_event.balance_after,
    )

abbrev pub is_debit : EventType → Bool
is_debit EventType.withdraw = true
is_debit EventType.transfer_out = true
is_debit _ = false

abbrev pub is_credit : EventType → Bool
is_credit EventType.deposit = true
is_credit EventType.transfer_in = true
is_credit _ = false

unfoldable pub detect_lost_debit : List Event → Bool
detect_lost_debit events =
    ltb (length (keep_if (λ e. is_credit e.event_type) events))
      (length (keep_if (λ e. is_debit e.event_type) events))

unfoldable pub detect_overdraft : ℤ → ℤ → Bool
detect_overdraft balance_before amount = ltb_ℤ balance_before amount
