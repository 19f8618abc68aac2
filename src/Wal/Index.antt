-- ===== src/Wal/Index.antt =====
-- Log ids and listed events against the entries.
use mobile_money_simulator.Prelude.{
  ℕ, ◌<◌, String, ◌≡◌, refl, inl, inr, true, some, List, [], ◌∷◌, arith, ◌==◌, elem, All, All-imp,
  All-snoc, Bool-cases, Option-cases, beq_eq, beq_refl, string_eq, remove_first,
}
use mobile_money_simulator.Dict.{Dict, lookup, contains, insert, lookup-insert, contains-insert}
use mobile_money_simulator.Wal.Replication.{acked_quorum, acked_short}
use mobile_money_simulator.Wal.{
  LogEntry, WriteAheadLog, empty, append, mark_applied, mark_replicated, mark_replica_ack, drop_id,
  set_applied, set_replicated, increment_replica_ack, is_quorum_reached, fresh_entry, Op, perform,
  run,
}

-- Every entry is filed under its event id with a log id already given out, and two entries have
-- different log ids; every listed event has an entry.
pub record IsIndexed (w : WriteAheadLog) : Type 0 where
  pub filed :
      (e : String) (x : LogEntry)
      → lookup e w.log_entries ≡ some x
      → (x.event_id ≡ e) × (x.log_id < w.next_log_id)
  pub unique :
      (e f : String) (x y : LogEntry)
      → lookup e w.log_entries ≡ some x
      → lookup f w.log_entries ≡ some y
      → x.log_id ≡ y.log_id
      → e ≡ f
  pub pending_known : All (λ e. contains e w.log_entries ≡ true) w.pending_entries
  pub applied_known : All (λ e. contains e w.log_entries ≡ true) w.applied_entries
  pub replicated_known : All (λ e. contains e w.log_entries ≡ true) w.replicated_entries

IsIndexed-empty : IsIndexed empty
IsIndexed-empty = record {
  filed = λ e x h. cc;
  unique = λ e f x y h k s. cc;
  pending_known = tt;
  applied_known = tt;
  replicated_known = tt;
}

-- Known events stay known when an entry is written.
known-insert :
    (e : String) (x : LogEntry) (d : Dict String LogEntry) (ids : List String)
    → All (λ f. contains f d ≡ true) ids
    → All (λ f. contains f (insert e x d) ≡ true) ids
known-insert e x d ids h = All-imp ids (λ f k. ground (arith, contains-insert e f x d, k)) h

known-drop_id :
    (e : String) (d : Dict String LogEntry) (ids : List String)
    → All (λ f. contains f d ≡ true) ids
    → All (λ f. contains f d ≡ true) (drop_id e ids)
known-drop_id e d ids h = elim (Bool-cases (elem e ids)) [
  | inl present ↦ rw present (removed ids h)
  | inr missing ↦ rw missing h
]
  where
    removed :
        (ids : List String)
        → All (λ f. contains f d ≡ true) ids
        → All (λ f. contains f d ≡ true) (remove_first e ids)
    removed [] h = tt
    removed (f ∷ ids) h = elim (Bool-cases (e == f)) [
      | inl same ↦ rw same h.1
      | inr other ↦ rw other (h.0, removed ids h.1)
    ]

append-IsIndexed :
    (now q : ℕ) (e : String) (w : WriteAheadLog) → IsIndexed w → IsIndexed (append now e q w).0
unfolding append
append-IsIndexed now q e w h =
    let x = fresh_entry w.next_log_id now e q in
    record {
      filed = λ f y k. ground (arith, lookup-insert e f x w.log_entries, h.filed f y, beq_eq e f);
      unique = λ f g y z k l s. ground (
        arith,
        lookup-insert e f x w.log_entries,
        lookup-insert e g x w.log_entries,
        h.filed f y,
        h.filed g z,
        h.unique f g y z,
        beq_eq e f,
        beq_eq e g,
      );
      pending_known =
          All-snoc (λ f. contains f (insert e x w.log_entries) ≡ true) w.pending_entries e
            (known-insert e x w.log_entries w.pending_entries h.pending_known)
            (ground (arith, contains-insert e e x w.log_entries, beq_refl e));
      applied_known = known-insert e x w.log_entries w.applied_entries h.applied_known;
      replicated_known = known-insert e x w.log_entries w.replicated_entries h.replicated_known;
    }

-- Writing an entry again with its ids unchanged.
rewrite-IsIndexed :
    (e : String) (x y : LogEntry) (w : WriteAheadLog)
    → IsIndexed w
    → lookup e w.log_entries ≡ some x
    → y.event_id ≡ x.event_id
    → y.log_id ≡ x.log_id
    → IsIndexed (record w { log_entries = insert e y w.log_entries })
rewrite-IsIndexed e x y w h found same_event same_log = record {
  filed = λ f z k.
      ground (arith, lookup-insert e f y w.log_entries, h.filed f z, h.filed f x, beq_eq e f);
  unique = λ f g z z' k l s. ground (
    arith,
    lookup-insert e f y w.log_entries,
    lookup-insert e g y w.log_entries,
    h.unique f g z z',
    h.unique f g x z',
    h.unique f g z x,
    beq_eq e f,
    beq_eq e g,
  );
  pending_known = known-insert e y w.log_entries w.pending_entries h.pending_known;
  applied_known = known-insert e y w.log_entries w.applied_entries h.applied_known;
  replicated_known = known-insert e y w.log_entries w.replicated_entries h.replicated_known;
}

known_self :
    (e : String) (y : LogEntry) (d : Dict String LogEntry) → contains e (insert e y d) ≡ true
known_self e y d = ground (arith, contains-insert e e y d, beq_refl e)

mark_applied-IsIndexed :
    (now : ℕ) (e : String) (w : WriteAheadLog) → IsIndexed w → IsIndexed (mark_applied now e w).0
unfolding mark_applied
mark_applied-IsIndexed now e w h = elim (Option-cases (lookup e w.log_entries)) [
  | inl unknown ↦ rw (unknown, mark_applied) h
  | inr (x, found) ↦
      let y : LogEntry = set_applied now x in
      let d = insert e y w.log_entries in
      let base = rewrite-IsIndexed e x y w h found refl refl in
      rw (found, mark_applied)
        (record {
          filed = base.filed;
          unique = base.unique;
          pending_known = known-drop_id e d w.pending_entries base.pending_known;
          applied_known =
              All-snoc (λ f. contains f d ≡ true) w.applied_entries e base.applied_known
                (known_self e y w.log_entries);
          replicated_known = base.replicated_known;
        })
]

mark_replicated-IsIndexed :
    (now : ℕ) (e : String) (w : WriteAheadLog) → IsIndexed w → IsIndexed (mark_replicated now e w).0
unfolding mark_replicated
mark_replicated-IsIndexed now e w h = elim (Option-cases (lookup e w.log_entries)) [
  | inl unknown ↦ rw (unknown, mark_replicated) h
  | inr (x, found) ↦
      let y : LogEntry = set_replicated now x in
      let d = insert e y w.log_entries in
      let base = rewrite-IsIndexed e x y w h found refl refl in
      rw (found, mark_replicated)
        (record {
          filed = base.filed;
          unique = base.unique;
          pending_known = base.pending_known;
          applied_known = known-drop_id e d w.applied_entries base.applied_known;
          replicated_known =
              All-snoc (λ f. contains f d ≡ true) w.replicated_entries e base.replicated_known
                (known_self e y w.log_entries);
        })
]

mark_replica_ack-IsIndexed :
    (now : ℕ) (e : String) (w : WriteAheadLog)
    → IsIndexed w
    → IsIndexed (mark_replica_ack now e w).0
mark_replica_ack-IsIndexed now e w h = elim (Option-cases (lookup e w.log_entries)) [
  | inl unknown ↦ unfold mark_replica_ack in rw (unknown, mark_replica_ack) h
  | inr (x, found) ↦
      let y : LogEntry = increment_replica_ack x in
      let base = rewrite-IsIndexed e x y w h found refl refl in
      elim (Bool-cases (is_quorum_reached y)) [
        | inl reached ↦
            rw (acked_quorum now e x w found reached) (mark_replicated-IsIndexed now e _ base)
        | inr short ↦ rw (acked_short now e x w found short) base
      ]
]

perform-IsIndexed : (op : Op) (w : WriteAheadLog) → IsIndexed w → IsIndexed (perform op w)
perform-IsIndexed (Op.appends now e q) w h = append-IsIndexed now q e w h
perform-IsIndexed (Op.applies now e) w h = mark_applied-IsIndexed now e w h
perform-IsIndexed (Op.acks now e) w h = mark_replica_ack-IsIndexed now e w h
perform-IsIndexed (Op.replicates now e) w h = mark_replicated-IsIndexed now e w h

run-IsIndexed : (ops : List Op) (w : WriteAheadLog) → IsIndexed w → IsIndexed (run ops w)
run-IsIndexed [] w h = h
run-IsIndexed (op ∷ ops) w h = run-IsIndexed ops (perform op w) (perform-IsIndexed op w h)

-- Whatever calls are made of a new log: every entry is filed under its event id with a log id
-- below the next one, no two entries share a log id, and every listed event has an entry.
pub run-empty-IsIndexed : (ops : List Op) → IsIndexed (run ops empty)
run-empty-IsIndexed ops = run-IsIndexed ops empty IsIndexed-empty
