-- ===== src/Wal/Recovery.antt =====
-- Events before they are applied, and before they are replicated, over runs of calls.
use mobile_money_simulator.Prelude.{
  ℕ, String, ◌≡◌, refl, ◌∙◌, ◌≢◌, inl, inr, Bool, true, false, ◌||◌, List, [], ◌∷◌, ◌++◌, arith,
  ◌==◌, elem, remove_first, All, Bool-cases, beq_eq, beq_ne, beq_refl, string_eq,
}
use mobile_money_simulator.Wal.{
  WriteAheadLog, append, mark_applied, mark_replicated, mark_replica_ack, drop_id,
  get_unapplied_events, get_unreplicated_events, Op, perform, run,
}

elem-append : (e : String) (xs ys : List String) → elem e (xs ++ ys) ≡ (elem e xs || elem e ys)
elem-append e [] ys = refl
elem-append e (x ∷ xs) ys = ground (arith, elem-append e xs ys)

elem-drop_id : (e x : String) (xs : List String) → e ≢ x → elem e (drop_id x xs) ≡ elem e xs
elem-drop_id e x xs ne = elim (Bool-cases (elem x xs)) [
  | inl known ↦ rw known (removed xs)
  | inr new ↦ rw new refl
]
  where
    removed : (ys : List String) → elem e (remove_first x ys) ≡ elem e ys
    removed [] = refl
    removed (y ∷ ys) = ground (arith, removed ys, beq_ne e x ne, beq_eq x y)

-- The calls that do not mark `e` as applied.
abbrev pub KeepsUnapplied : String → Op → Type 0
KeepsUnapplied e (Op.applies now x) = e ≢ x
KeepsUnapplied e _ = Unit

-- The calls that do not mark `e` as replicated.
abbrev pub KeepsUnreplicated : String → Op → Type 0
KeepsUnreplicated e (Op.acks now x) = e ≢ x
KeepsUnreplicated e (Op.replicates now x) = e ≢ x
KeepsUnreplicated e _ = Unit

perform_unapplied :
    (e : String) (op : Op) (w : WriteAheadLog)
    → KeepsUnapplied e op
    → elem e w.pending_entries ≡ true
    → elem e (perform op w).pending_entries ≡ true
unfolding append mark_applied mark_replicated mark_replica_ack
perform_unapplied e (Op.appends now x q) w k h =
    ground (arith, elem-append e w.pending_entries (x ∷ []))
perform_unapplied e (Op.applies now x) w k h = ground (arith, elem-drop_id e x w.pending_entries k)
perform_unapplied e (Op.acks now x) w k h = ground arith
perform_unapplied e (Op.replicates now x) w k h = ground arith

run_unapplied :
    (e : String) (ops : List Op) (w : WriteAheadLog)
    → All (KeepsUnapplied e) ops
    → elem e w.pending_entries ≡ true
    → elem e (run ops w).pending_entries ≡ true
run_unapplied e [] w k h = h
run_unapplied e (op ∷ ops) w k h =
    run_unapplied e ops (perform op w) k.1 (perform_unapplied e op w k.0 h)

-- An appended event is among the events that `get_unapplied_events` gives to apply on restart,
-- whatever calls follow, until a call marks it as applied: also where acknowledgements or
-- `mark_replicated` have meanwhile taken its status to replicated.
pub unapplied_survives :
    (now q : ℕ) (e : String) (ops : List Op) (w : WriteAheadLog)
    → All (KeepsUnapplied e) ops
    → elem e (get_unapplied_events (run ops (append now e q w).0)) ≡ true
unfolding get_unapplied_events append
unapplied_survives now q e ops w k =
    run_unapplied e ops (append now e q w).0 k
      (ground (arith, elem-append e w.pending_entries (e ∷ []), beq_refl e))

-- Waiting to be applied, or applied and waiting to be replicated.
abbrev waits : String → WriteAheadLog → Bool
waits e w = elem e w.pending_entries || elem e w.applied_entries

perform_unreplicated :
    (e : String) (op : Op) (w : WriteAheadLog)
    → KeepsUnreplicated e op
    → waits e w ≡ true
    → waits e (perform op w) ≡ true
unfolding append mark_applied mark_replicated mark_replica_ack
perform_unreplicated e (Op.appends now x q) w k h =
    ground (arith, elem-append e w.pending_entries (x ∷ []))
perform_unreplicated e (Op.applies now x) w k h = elim (Bool-cases (e == x)) [
  | inl same ↦ ground (arith, elem-append e w.applied_entries (x ∷ []))
  | inr other ↦ ground (
    arith,
    elem-append e w.applied_entries (x ∷ []),
    elem-drop_id e x w.pending_entries (distinct other),
  )
]
  where
    distinct : (e == x) ≡ false → e ≢ x
    distinct f same = clash (rw same (beq_refl x)) f
      where
        clash : (e == x) ≡ true → (e == x) ≡ false → ⊥
        clash p q = cc
perform_unreplicated e (Op.acks now x) w k h = ground (arith, elem-drop_id e x w.applied_entries k)
perform_unreplicated e (Op.replicates now x) w k h =
    ground (arith, elem-drop_id e x w.applied_entries k)

run_unreplicated :
    (e : String) (ops : List Op) (w : WriteAheadLog)
    → All (KeepsUnreplicated e) ops
    → waits e w ≡ true
    → waits e (run ops w) ≡ true
run_unreplicated e [] w k h = h
run_unreplicated e (op ∷ ops) w k h =
    run_unreplicated e ops (perform op w) k.1 (perform_unreplicated e op w k.0 h)

-- An appended event is among the events that need replication, applied or not, until a call
-- records an acknowledgement of it or marks it as replicated.
pub unreplicated_survives :
    (now q : ℕ) (e : String) (ops : List Op) (w : WriteAheadLog)
    → All (KeepsUnreplicated e) ops
    → elem e (get_unreplicated_events (run ops (append now e q w).0)) ≡ true
unfolding get_unreplicated_events append
unreplicated_survives now q e ops w k =
    let w' = (append now e q w).0 in
    elem-append e (run ops w').pending_entries (run ops w').applied_entries
    ∙ run_unreplicated e ops w' k
        (ground (arith, elem-append e w.pending_entries (e ∷ []), beq_refl e))
