-- ===== src/EventLog/Tests.antt =====
-- Inputs that meet the hypotheses of the theorems about the event log.
use mobile_money_simulator.Prelude.{ℕ, ◌≡◌, refl, String, true, false, List, [], ◌∷◌}
use mobile_money_simulator.Prelude.Int.{pos, ◌+ℤ◌, ◌-ℤ◌}
use mobile_money_simulator.EventLog.{
  EventType, TransactionEvent, EventLog, empty, add_event, is_duplicate, store_event, merge_events,
  get_events_after, compute_balance, compute_balance_optimized, validate_consistency,
}
use mobile_money_simulator.EventLog.Invariant.{IsWellFormed, IsWellFormed-empty}
use mobile_money_simulator.EventLog.Merge.{merge_events-IsWellFormed}
use mobile_money_simulator.EventLog.Balance.{withdrawn, total_after, compute_balance_optimized_gap}

abbrev pub event : ℕ → EventType → ℕ → String → TransactionEvent
event i t a r = record {
  event_id = i;
  event_type = t;
  amount = pos a;
  account_id = 1;
  timestamp = 0;
  node_id = "node_1";
  request_id = r;
  is_applied = false;
  version = "v1";
  transaction_id = "";
}

-- Offered out of order, with a repeated id and a repeated request.
abbrev pub offered : List TransactionEvent
offered =
    event 5 EventType.deposit 50 "b"
    ∷ event 3 EventType.deposit 100 "a"
    ∷ event 5 EventType.deposit 7 "c"
    ∷ event 6 EventType.deposit 9 "a"
    ∷ event 7 EventType.withdraw 30 ""
    ∷ []

abbrev pub log : EventLog
log = (merge_events offered empty).0

merged : (merge_events offered empty).1 ≡ 3
unfolding merge_events add_event is_duplicate store_event
merged = refl

replayed : (compute_balance (pos 0) 0 log ≡ pos 120) × (compute_balance (pos 100) 3 log ≡ pos 120)
unfolding merge_events add_event is_duplicate store_event compute_balance get_events_after ◌+ℤ◌ ◌-ℤ◌
replayed = (refl, refl)

optimized_differs : (compute_balance_optimized (pos 0) 0 (pos 0) log).balance ≡ pos 150
unfolding merge_events add_event is_duplicate store_event compute_balance_optimized get_events_after
    ◌+ℤ◌ ◌-ℤ◌
optimized_differs = refl

valid : validate_consistency log ≡ true
unfolding merge_events add_event is_duplicate store_event validate_consistency
valid = refl

log-IsWellFormed : IsWellFormed log
log-IsWellFormed = merge_events-IsWellFormed offered empty IsWellFormed-empty

merge_events-IsWellFormed_example : IsWellFormed (merge_events offered empty).0
merge_events-IsWellFormed_example = merge_events-IsWellFormed offered empty IsWellFormed-empty

compute_balance_optimized_gap_example :
    (compute_balance_optimized (pos 0) 0 (pos 10) log).balance +ℤ pos 10
    ≡ compute_balance (pos 0) 0 log +ℤ total_after withdrawn 0 log
compute_balance_optimized_gap_example = compute_balance_optimized_gap (pos 0) (pos 10) 0 log

-- The same three events, received in another order.
abbrev other_log : EventLog
other_log = record {
  events =
      (3, event 3 EventType.deposit 100 "a")
      ∷ (5, event 5 EventType.deposit 50 "b")
      ∷ (7, event 7 EventType.withdraw 30 "")
      ∷ [];
  max_event_id = 7;
  seen_request_ids = "b" ∷ "a" ∷ [];
}
