-- ===== src/Wal/Replication.antt =====
-- What an acknowledgement does to an entry.
use mobile_money_simulator.Prelude.{
  ℕ, zero, suc, ◌+◌, ◌≤◌, String, ◌≡◌, refl, inl, inr, true, false, Option, none, some, List, [],
  ◌∷◌, ◌++◌, arith, if◌then◌else◌, leb, Bool-cases, beq_refl, string_eq, elem,
}
use mobile_money_simulator.Dict.{lookup, insert, lookup-insert}
use mobile_money_simulator.Wal.{
  WalStatus, LogEntry, WriteAheadLog, mark_applied, mark_replicated, mark_replica_ack, set_applied,
  set_replicated, increment_replica_ack, is_quorum_reached, get_entry, get_unreplicated_events,
  drop_id,
}

pub acked_quorum :
    (now : ℕ) (e : String) (x : LogEntry) (w : WriteAheadLog)
    → lookup e w.log_entries ≡ some x
    → is_quorum_reached (increment_replica_ack x) ≡ true
    → mark_replica_ack now e w ≡ (
      (mark_replicated now e
          (record w { log_entries = insert e (increment_replica_ack x) w.log_entries })).0,
      true,
    )
unfolding mark_replica_ack
acked_quorum now e x w found reached = rw (found, mark_replica_ack) (rw reached refl)

pub acked_short :
    (now : ℕ) (e : String) (x : LogEntry) (w : WriteAheadLog)
    → lookup e w.log_entries ≡ some x
    → is_quorum_reached (increment_replica_ack x) ≡ false
    → mark_replica_ack now e w
      ≡ (record w { log_entries = insert e (increment_replica_ack x) w.log_entries }, false)
unfolding mark_replica_ack
acked_short now e x w found short = rw (found, mark_replica_ack) (rw short refl)

-- `k` acknowledgements of one event.
abbrev pub acked : ℕ → ℕ → String → WriteAheadLog → WriteAheadLog
acked now zero e w = w
acked now (suc k) e w = acked now k e (mark_replica_ack now e w).0

-- The count and the status of an entry.
abbrev pub progress : String → WriteAheadLog → Option (ℕ × WalStatus)
progress e w = elim (lookup e w.log_entries) [
  | none ↦ none
  | some x ↦ some (x.replicated_count, x.status)
]

-- An acknowledgement of a known event counts, and makes it REPLICATED exactly if the count has
-- then reached the quorum; the answer says so. It never leaves the event less replicated.
pub mark_replica_ack-progress :
    (now : ℕ) (e : String) (x : LogEntry) (w : WriteAheadLog)
    → get_entry e w ≡ some x
    → let (w', reached) = mark_replica_ack now e w in
      (reached ≡ leb x.required_replicas (x.replicated_count + 1))
      × (progress e w'
          ≡ some (x.replicated_count + 1, (if reached then WalStatus.replicated else x.status)))
unfolding get_entry mark_replicated
mark_replica_ack-progress now e x w found =
    elim (Bool-cases (is_quorum_reached (increment_replica_ack x))) [
      | inl reached ↦
          let y : LogEntry = increment_replica_ack x in
          let d = insert e y w.log_entries in
          let again : lookup e d ≡ some y =
            ground (arith, lookup-insert e e y w.log_entries, beq_refl e) in
          let z : LogEntry = set_replicated now y in
          rw (acked_quorum now e x w found reached) (
            rw (again, mark_replicated)
              (rw reached refl, ground (arith, lookup-insert e e z d, beq_refl e)))
      | inr short ↦
          let y : LogEntry = increment_replica_ack x in
          rw (acked_short now e x w found short)
            (rw short refl, ground (arith, lookup-insert e e y w.log_entries, beq_refl e))
    ]

-- Every acknowledgement at or past the quorum lists the event as replicated once more.
pub mark_replica_ack_relists :
    (now : ℕ) (e : String) (x : LogEntry) (w : WriteAheadLog)
    → get_entry e w ≡ some x
    → x.required_replicas ≤ x.replicated_count + 1
    → (mark_replica_ack now e w).0.replicated_entries ≡ w.replicated_entries ++ e ∷ []
unfolding get_entry mark_replicated
mark_replica_ack_relists now e x w found enough =
    let y : LogEntry = increment_replica_ack x in
    let reached : is_quorum_reached y ≡ true = ground arith in
    let again : lookup e (insert e y w.log_entries) ≡ some y =
      ground (arith, lookup-insert e e y w.log_entries, beq_refl e) in
    rw (acked_quorum now e x w found reached) (rw (again, mark_replicated) refl)

elem_last : (e : String) (xs ys : List String) → elem e (xs ++ (ys ++ e ∷ [])) ≡ true
elem_last e [] [] = rw (beq_refl e) refl
elem_last e [] (y ∷ ys) = ground (arith, elem_last e [] ys)
elem_last e (x ∷ xs) ys = ground (arith, elem_last e xs ys)

-- Marking a known event as applied makes it APPLIED whatever its status was, REPLICATED included,
-- and puts it among the events that need replication.
pub mark_applied_regresses :
    (now : ℕ) (e : String) (x : LogEntry) (w : WriteAheadLog)
    → get_entry e w ≡ some x
    → let w' = (mark_applied now e w).0 in
      (progress e w' ≡ some (x.replicated_count, WalStatus.applied))
      × (elem e (get_unreplicated_events w') ≡ true)
unfolding get_entry mark_applied get_unreplicated_events
mark_applied_regresses now e x w found =
    let y : LogEntry = set_applied now x in
    rw (found, mark_applied)
      (
        ground (arith, lookup-insert e e y w.log_entries, beq_refl e),
        elem_last e (drop_id e w.pending_entries) w.applied_entries,
      )
