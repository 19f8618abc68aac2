-- ===== src/EventLog/Merge.antt =====
-- Adding and merging events: what goes in, and what stays.
use mobile_money_simulator.Prelude.{
  ℕ, ◌+◌, ◌≡◌, refl, inl, inr, true, false, not, none, some, List, [], ◌∷◌, arith, if◌then◌else◌,
  ◌==◌, length, length-append, Bool-cases, beq_eq, beq_refl, nat_eq, string_eq,
}
use mobile_money_simulator.Dict.{
  lookup, contains, insert_fresh, lookup-insert, contains-insert, contains-lookup,
}
use mobile_money_simulator.EventLog.{
  TransactionEvent, EventLog, is_duplicate, store_event, add_event, add_loop, merge_events,
  get_event,
}
use mobile_money_simulator.EventLog.Invariant.{IsWellFormed, add_event-IsWellFormed, elem-add_seen}

-- `add_event` says whether the event went in; a refused event changes nothing, and one that went
-- in is found under its id while every other id reads as before.
pub get_event-add_event :
    (e : TransactionEvent) (log : EventLog) (j : ℕ)
    → let (log', added) = add_event e log in
      (added ≡ not (is_duplicate e log))
      × (added ≡ false → log' ≡ log)
      × (get_event j log' ≡ (
          if added then (if e.event_id == j then some e else get_event j log) else get_event j log))
unfolding add_event store_event get_event
get_event-add_event e log j = elim (Bool-cases (is_duplicate e log)) [
  | inl dup ↦ rw dup (refl, λ h. refl, refl)
  | inr fresh ↦ rw fresh (refl, λ h. cc, lookup-insert e.event_id j e log.events)
]

-- Once an event is refused as a duplicate it stays refused.
is_duplicate-store_event :
    (f e : TransactionEvent) (log : EventLog)
    → is_duplicate e log ≡ true
    → is_duplicate e (store_event f log) ≡ true
unfolding is_duplicate store_event
is_duplicate-store_event f e log h = ground (
  arith,
  contains-insert f.event_id e.event_id f log.events,
  elem-add_seen f.request_id e.request_id log.seen_request_ids,
)

is_duplicate-add_event :
    (f e : TransactionEvent) (log : EventLog)
    → is_duplicate e log ≡ true
    → is_duplicate e (add_event f log).0 ≡ true
unfolding add_event
is_duplicate-add_event f e log h = elim (Bool-cases (is_duplicate f log)) [
  | inl dup ↦ rw dup h
  | inr fresh ↦ rw fresh (is_duplicate-store_event f e log h)
]

is_duplicate-add_event_self :
    (e : TransactionEvent) (log : EventLog) → is_duplicate e (add_event e log).0 ≡ true
unfolding add_event
is_duplicate-add_event_self e log = elim (Bool-cases (is_duplicate e log)) [
  | inl dup ↦ rw dup dup
  | inr fresh ↦ rw fresh (stored e log)
]
  where
    stored : (e : TransactionEvent) (log : EventLog) → is_duplicate e (store_event e log) ≡ true
    stored e log =
        unfold is_duplicate store_event in
        ground (arith, contains-insert e.event_id e.event_id e log.events, beq_refl e.event_id)

is_duplicate-add_loop :
    (es : List TransactionEvent) (e : TransactionEvent) (log : EventLog) (n : ℕ)
    → is_duplicate e log ≡ true
    → is_duplicate e (add_loop es log n).0 ≡ true
unfolding add_loop
is_duplicate-add_loop [] e log n h = h
is_duplicate-add_loop (f ∷ es) e log n h =
    is_duplicate-add_loop es e (add_event f log).0 _ (is_duplicate-add_event f e log h)

-- All of a list's events are refused.
abbrev AllDuplicate : List TransactionEvent → EventLog → Type 0
AllDuplicate [] log = Unit
AllDuplicate (e ∷ es) log = (is_duplicate e log ≡ true) × AllDuplicate es log

add_loop_refuses :
    (es : List TransactionEvent) (log : EventLog) (n : ℕ)
    → AllDuplicate es log
    → add_loop es log n ≡ (log, n)
unfolding add_loop add_event
add_loop_refuses [] log n h = refl
add_loop_refuses (e ∷ es) log n h = rw h.0 (add_loop_refuses es log n h.1)

add_loop-AllDuplicate :
    (es : List TransactionEvent) (log : EventLog) (n : ℕ) → AllDuplicate es (add_loop es log n).0
unfolding add_loop
add_loop-AllDuplicate [] log n = tt
add_loop-AllDuplicate (e ∷ es) log n = (
  is_duplicate-add_loop es e (add_event e log).0 _ (is_duplicate-add_event_self e log),
  add_loop-AllDuplicate es (add_event e log).0 _,
)

-- Merging the same events again adds none of them and leaves the log as it is.
pub merge_events_idempotent :
    (es : List TransactionEvent) (log : EventLog)
    → merge_events es (merge_events es log).0 ≡ ((merge_events es log).0, 0)
unfolding merge_events
merge_events_idempotent es log =
    add_loop_refuses es (add_loop es log 0).0 0 (add_loop-AllDuplicate es log 0)

add_loop-IsWellFormed :
    (es : List TransactionEvent) (log : EventLog) (n : ℕ)
    → IsWellFormed log
    → IsWellFormed (add_loop es log n).0
unfolding add_loop
add_loop-IsWellFormed [] log n h = h
add_loop-IsWellFormed (e ∷ es) log n h =
    add_loop-IsWellFormed es (add_event e log).0 _ (add_event-IsWellFormed e log h)

-- A merge keeps the log well formed, whatever the remote events are.
pub merge_events-IsWellFormed :
    (es : List TransactionEvent) (log : EventLog)
    → IsWellFormed log
    → IsWellFormed (merge_events es log).0
unfolding merge_events
merge_events-IsWellFormed es log = add_loop-IsWellFormed es log 0

length-add_event :
    (e : TransactionEvent) (log : EventLog)
    → length (add_event e log).0.events ≡ length log.events + (if (add_event e log).1 then 1 else 0)
unfolding add_event store_event is_duplicate
length-add_event e log = elim (Bool-cases (is_duplicate e log)) [
  | inl dup ↦ rw dup (omega arith)
  | inr fresh ↦
      let absent : contains e.event_id log.events ≡ false = ground arith in
      rw (fresh, insert_fresh e.event_id e log.events absent) (length-append log.events _)
]

length-add_loop :
    (es : List TransactionEvent) (log : EventLog) (n : ℕ)
    → length (add_loop es log n).0.events + n ≡ length log.events + (add_loop es log n).1
unfolding add_loop
length-add_loop [] log n = refl
length-add_loop (e ∷ es) log n =
    let (log', added) = add_event e log in
    ground
      (arith, length-add_event e log, length-add_loop es log' n, length-add_loop es log' (n + 1))

-- The number that a merge returns is the number of events by which the log has grown.
pub length-merge_events :
    (es : List TransactionEvent) (log : EventLog)
    → length (merge_events es log).0.events ≡ length log.events + (merge_events es log).1
unfolding merge_events
length-merge_events es log = omega (arith, length-add_loop es log 0)

absent_of_fresh :
    (f : TransactionEvent) (log : EventLog)
    → is_duplicate f log ≡ false
    → lookup f.event_id log.events ≡ none
unfolding is_duplicate
absent_of_fresh f log h = contains-lookup f.event_id log.events (ground arith)

kept :
    (f : TransactionEvent) (log : EventLog) (j : ℕ) (e : TransactionEvent)
    → get_event j log ≡ some e
    → get_event j (add_event f log).0 ≡ some e
unfolding add_event store_event get_event
kept f log j e h = elim (Bool-cases (is_duplicate f log)) [
  | inl dup ↦ rw dup h
  | inr fresh ↦ rw fresh (
      ground (
        arith,
        lookup-insert f.event_id j f log.events,
        absent_of_fresh f log fresh,
        beq_eq f.event_id j,
      ))
]

get_event-add_loop :
    (es : List TransactionEvent) (log : EventLog) (n j : ℕ) (e : TransactionEvent)
    → get_event j log ≡ some e
    → get_event j (add_loop es log n).0 ≡ some e
unfolding add_loop
get_event-add_loop [] log n j e h = h
get_event-add_loop (f ∷ es) log n j e h =
    get_event-add_loop es (add_event f log).0 _ j e (kept f log j e h)

-- An event that is in the log stays there unchanged, whatever is merged.
pub merge_events_immutable :
    (es : List TransactionEvent) (log : EventLog) (j : ℕ) (e : TransactionEvent)
    → get_event j log ≡ some e
    → get_event j (merge_events es log).0 ≡ some e
unfolding merge_events
merge_events_immutable es log = get_event-add_loop es log 0
