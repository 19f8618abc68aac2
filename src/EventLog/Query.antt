-- ===== src/EventLog/Query.antt =====
-- What the queries return.
use mobile_money_simulator.Prelude.{
  ℕ, ◌<◌, ◌≡◌, refl, inl, inr, true, false, none, some, List, [], ◌∷◌, arith, ltb, ◌==◌, All,
  Bool-cases, beq_eq, beq_refl, nat_eq, String, String-set, ◌↔◌,
}
use mobile_money_simulator.Prelude.Sort.{IsSorted, sort_by-IsSorted, sort_by-perm}
use mobile_money_simulator.Dict.{Dict, lookup, contains, IsNodup, contains-lookup}
use mobile_money_simulator.EventLog.{
  EventType, TransactionEvent, EventLog, newer, get_events_after, get_event,
}
use mobile_money_simulator.EventLog.Invariant.{IsWellFormed, IsFiled}
use mathlib.Core.List.{Mem, mem-cons, mem-cons_self, mem-cons_of_mem, not-mem-nil}
use mathlib.Core.List.Perm
use mathlib.Core.Logic.Or
use native.Mathlib.Bridge.{le_prop}

-- The events that a sync asks for come in ascending order of their ids.
pub get_events_after-IsSorted :
    (after : ℕ) (log : EventLog) → IsSorted (λ e. e.event_id) (get_events_after after log)
unfolding get_events_after
get_events_after-IsSorted after log = sort_by-IsSorted (λ e. e.event_id) (newer after log.events)

mem-newer :
    (after k : ℕ) (e : TransactionEvent) (d : Dict ℕ TransactionEvent)
    → lookup k d ≡ some e
    → after < k
    → Mem e (newer after d)
mem-newer after k e [] found later = cc
mem-newer after k e ((j, f) ∷ d) found later = elim (Bool-cases (j == k)) [
  | inl here ↦
      let same : f ≡ e = ground arith in
      let asked : ltb after j ≡ true = ground (arith, beq_eq j k here) in
      rw (asked, same) mem-cons_self
  | inr there ↦
      let rest : Mem e (newer after d) = mem-newer after k e d (ground arith) later in
      elim (Bool-cases (ltb after j)) [
        | inl asked ↦ rw asked (mem-cons_of_mem f rest)
        | inr old ↦ rw old rest
      ]
]

-- A log that files each event under its id hands out every event with a later id.
pub get_events_after_complete :
    (after k : ℕ) (e : TransactionEvent) (log : EventLog)
    → get_event k log ≡ some e
    → after < k
    → Mem e (get_events_after after log)
unfolding get_events_after get_event
get_events_after_complete after k e log found later =
    (Perm.mem_iff (sort_by-perm (λ e. e.event_id) (newer after log.events))).1
      (mem-newer after k e log.events found later)

EventType-set : IsSet EventType
EventType-set = hlevel

-- Found under its own id, and later than asked.
abbrev IsLater : ℕ → Dict ℕ TransactionEvent → TransactionEvent → Type 0
IsLater after d e = (lookup e.event_id d ≡ some e) × (after < e.event_id)

IsLater-prop :
    (after : ℕ) (d : Dict ℕ TransactionEvent) (e : TransactionEvent) → IsProp (IsLater after d e)
IsLater-prop after d e = hlevel (le_prop, String-set)

IsLater-cons :
    (after j : ℕ) (f e : TransactionEvent) (d : Dict ℕ TransactionEvent)
    → contains j d ≡ false
    → IsLater after d e
    → IsLater after ((j, f) ∷ d) e
IsLater-cons after j f e d new h = elim (Bool-cases (j == e.event_id)) [
  | inl same ↦
      let gone : lookup e.event_id d ≡ none =
        rw (← beq_eq j e.event_id same) (contains-lookup j d new) in
      cc
  | inr other ↦ (rw other h.0, h.1)
]

newer_sound :
    (max : ℕ) (seen : List String) (after : ℕ) (e : TransactionEvent) (d : Dict ℕ TransactionEvent)
    → All (IsFiled max seen) d
    → IsNodup d
    → Mem e (newer after d)
    → IsLater after d e
newer_sound max seen after e [] filed nodup m = absurd (not-mem-nil m)
newer_sound max seen after e ((j, f) ∷ d) filed nodup m = elim (Bool-cases (ltb after j)) [
  | inl asked ↦
      Or.elim (IsLater-prop after ((j, f) ∷ d) e) (mem-cons.0 (rw asked at m))
        (λ same.
          rw same (rw (filed.0.keyed, beq_refl f.event_id) refl, ground (arith, filed.0.keyed)))
        (λ rest.
          IsLater-cons after j f e d nodup.0 (newer_sound max seen after e d filed.1 nodup.1 rest))
  | inr old ↦
      IsLater-cons after j f e d nodup.0
        (newer_sound max seen after e d filed.1 nodup.1 (rw old at m))
]

-- In a well-formed log the events after an id are exactly those filed under a later id.
pub get_events_after_exact :
    (after : ℕ) (e : TransactionEvent) (log : EventLog)
    → IsWellFormed log
    → Mem e (get_events_after after log)
      ↔ ((get_event e.event_id log ≡ some e) × (after < e.event_id))
unfolding get_events_after get_event
get_events_after_exact after e log wf = (
  λ m.
      newer_sound log.max_event_id log.seen_request_ids after e log.events wf.filed wf.nodup
        ((Perm.mem_iff (sort_by-perm (λ e. e.event_id) (newer after log.events))).0 m),
  λ h. get_events_after_complete after e.event_id e log h.0 h.1,
)
