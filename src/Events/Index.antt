-- ===== src/Events/Index.antt =====
-- The indices of the event store against the events.
use mobile_money_simulator.Prelude.{
  ℕ, String, ◌≡◌, refl, sym, ap, ◌∙◌, inl, inr, Bool, false, not, List, [], ◌∷◌, ◌++◌, some, arith,
  if◌then◌else◌, ◌==◌, elem, keep_if, remove_first, nat_beq, Bool-cases, Option-cases, beq_refl,
  beq_eq, nat_eq, string_eq,
}
use mobile_money_simulator.Dict.{
  Dict, lookup, contains, insert, values, IsNodup, lookup-insert, insert-IsNodup, insert_fresh,
}
use mobile_money_simulator.Events.{
  Event, EventStore, empty, ids_of, append, events_at, get_account_events, applied, mark_applied,
  acknowledged, mark_replicated, get_unapplied_events, all_events,
}

-- The ids of the events with a property, in the order of the dict.
abbrev pub ids_where : (Event → Bool) → Dict String Event → List String
ids_where p [] = []
ids_where p ((k, e) ∷ d) = let rest = ids_where p d in if p e then k ∷ rest else rest

abbrev pub pending : Event → Bool
pending e = not e.is_applied

abbrev pub of_account : ℕ → Event → Bool
of_account a e = nat_beq e.account_id a

-- Each list of ids is the list of the events it stands for.
pub record IsIndexed (s : EventStore) : Type 0 where
  pub nodup : IsNodup s.events
  pub by_state : s.unapplied_events ≡ ids_where pending s.events
  pub by_account : (a : ℕ) → ids_of a s.account_events ≡ ids_where (of_account a) s.events

IsIndexed-empty : IsIndexed empty
IsIndexed-empty = record { nodup = tt; by_state = refl; by_account = λ a. refl }

ids_where-snoc :
    (p : Event → Bool) (k : String) (e : Event) (d : Dict String Event)
    → ids_where p (d ++ (k, e) ∷ []) ≡ (if p e then ids_where p d ++ k ∷ [] else ids_where p d)
ids_where-snoc p k e [] = elim (Bool-cases (p e)) [ inl t ↦ rw t refl | inr f ↦ rw f refl ]
ids_where-snoc p k e ((j, x) ∷ d) = elim (Bool-cases (p x)) [
  | inl t ↦ elim (Bool-cases (p e)) [
    | inl u ↦ rw (t, u) (ap (λ l. j ∷ l) (ids_where-snoc p k e d ∙ rw u refl))
    | inr g ↦ rw (t, g) (ap (λ l. j ∷ l) (ids_where-snoc p k e d ∙ rw g refl))
  ]
  | inr f ↦ rw f (ids_where-snoc p k e d)
]

append-IsIndexed :
    (e : Event) (s : EventStore)
    → contains e.event_id s.events ≡ false
    → IsIndexed s
    → IsIndexed (append e s).0
unfolding append
append-IsIndexed e s fresh h = record {
  nodup = insert-IsNodup e.event_id e s.events h.nodup;
  by_state =
      rw
        (
          insert_fresh e.event_id e s.events fresh,
          ids_where-snoc pending e.event_id e s.events,
          h.by_state,
        )
        refl;
  by_account = λ a.
      rw
        (
          insert_fresh e.event_id e s.events fresh,
          ids_where-snoc (of_account a) e.event_id e s.events,
          ← h.by_account a,
        )
        (grown a e.account_id e.event_id s.account_events);
}
  where
    grown :
        (a b : ℕ) (i : String) (d : Dict ℕ (List String))
        → ids_of a (insert b (ids_of b d ++ i ∷ []) d)
          ≡ (if nat_beq b a then ids_of a d ++ i ∷ [] else ids_of a d)
    grown a b i d = elim (Bool-cases (nat_beq b a)) [
      | inl t ↦ rw (lookup-insert b a (ids_of b d ++ i ∷ []) d, t, beq_eq b a t) refl
      | inr f ↦ rw (lookup-insert b a (ids_of b d ++ i ∷ []) d, f) refl
    ]

-- Writing over an event leaves a list of ids alone when the property does not change.
ids_where-insert :
    (p : Event → Bool) (k : String) (e e' : Event) (d : Dict String Event)
    → lookup k d ≡ some e
    → p e' ≡ p e
    → ids_where p (insert k e' d) ≡ ids_where p d
ids_where-insert p k e e' [] found same = cc
ids_where-insert p k e e' ((j, x) ∷ d) found same = elim (Bool-cases (j == k)) [
  | inl t ↦ rw (t, same, first x e (rw (← found, t) refl)) refl
  | inr f ↦ rw (f, ids_where-insert p k e e' d (rw (← found, f) refl) same) refl
]
  where
    first : (x e : Event) → some x ≡ some e → x ≡ e
    first x e h = cc

remove_first-absent :
    (p : Event → Bool) (k : String) (d : Dict String Event)
    → contains k d ≡ false
    → remove_first k (ids_where p d) ≡ ids_where p d
remove_first-absent p k [] h = refl
remove_first-absent p k ((j, x) ∷ d) h = elim (Bool-cases (p x)) [
  | inl t ↦ rw t (ground (arith, remove_first-absent p k d, beq_eq k j, beq_refl k))
  | inr f ↦ rw f (ground (arith, remove_first-absent p k d))
]

-- An event that becomes applied leaves the list of the unapplied ones.
ids_where-applied :
    (k : String) (e : Event) (d : Dict String Event)
    → IsNodup d
    → lookup k d ≡ some e
    → ids_where pending (insert k (applied e) d) ≡ remove_first k (ids_where pending d)
ids_where-applied k e [] n found = cc
ids_where-applied k e ((j, x) ∷ d) n found = elim (Bool-cases (j == k)) [
  | inl t ↦ elim (Bool-cases (pending x)) [
    | inl u ↦ rw (t, u, beq_eq j k t, beq_refl k) refl
    | inr g ↦ rw (t, g) (sym (remove_first-absent pending k d (rw (← beq_eq j k t) n.0)))
  ]
  | inr f ↦
      let rest = ids_where-applied k e d n.1 (rw (← found, f) refl) in
      elim (Bool-cases (pending x)) [
        | inl u ↦ rw (f, u, rest) (ground (arith, beq_eq k j, beq_refl k))
        | inr g ↦ rw (f, g, rest) refl
      ]
]

remove_if :
    (k : String) (ids : List String)
    → (if elem k ids then remove_first k ids else ids) ≡ remove_first k ids
remove_if k [] = refl
remove_if k (j ∷ ids) = ground (arith, remove_if k ids)

mark_applied-IsIndexed :
    (k : String) (s : EventStore) → IsIndexed s → IsIndexed (mark_applied k s).0
unfolding mark_applied
mark_applied-IsIndexed k s h = elim (Option-cases (lookup k s.events)) [
  | inl absent ↦ rw (absent, mark_applied) h
  | inr (e, found) ↦
      rw (found, mark_applied)
        (record {
          nodup = insert-IsNodup k (applied e) s.events h.nodup;
          by_state =
              rw (ids_where-applied k e s.events h.nodup found, ← h.by_state)
                (remove_if k s.unapplied_events);
          by_account = λ a.
              rw (ids_where-insert (of_account a) k e (applied e) s.events found refl)
                (h.by_account a);
        })
]

mark_replicated-IsIndexed :
    (now : ℕ) (k server_id : String) (s : EventStore)
    → IsIndexed s
    → IsIndexed (mark_replicated now k server_id s).0
unfolding mark_replicated
mark_replicated-IsIndexed now k server_id s h = elim (Option-cases (lookup k s.events)) [
  | inl absent ↦ rw (absent, mark_replicated) h
  | inr (e, found) ↦
      let e' = acknowledged server_id now e in
      rw (found, mark_replicated)
        (record {
          nodup = insert-IsNodup k e' s.events h.nodup;
          by_state = rw (ids_where-insert pending k e e' s.events found refl) h.by_state;
          by_account =
              λ a. rw (ids_where-insert (of_account a) k e e' s.events found refl) (h.by_account a);
        })
]

-- One call that changes the store. The uuid of an appended event is not in use.
pub data Step : EventStore → EventStore → Type 0 where
  appended :
      {s : EventStore} (e : Event) → contains e.event_id s.events ≡ false → Step s (append e s).0
  marked_applied : {s : EventStore} (k : String) → Step s (mark_applied k s).0
  marked_replicated :
      {s : EventStore} (now : ℕ) (k server_id : String)
      → Step s (mark_replicated now k server_id s).0

pub data Run : EventStore → Type 0 where
  start : Run empty
  later : {s t : EventStore} → Run s → Step s t → Run t

pub Step-IsIndexed : {s t : EventStore} → Step s t → IsIndexed s → IsIndexed t
Step-IsIndexed (Step.appended {s} e fresh) h = append-IsIndexed e s fresh h
Step-IsIndexed (Step.marked_applied {s} k) h = mark_applied-IsIndexed k s h
Step-IsIndexed (Step.marked_replicated {s} now k server_id) h =
    mark_replicated-IsIndexed now k server_id s h

pub Run-IsIndexed : {s : EventStore} → Run s → IsIndexed s
Run-IsIndexed Run.start = IsIndexed-empty
Run-IsIndexed (Run.later r st) = Step-IsIndexed st (Run-IsIndexed r)

events_at-skip :
    (p : Event → Bool) (j : String) (x : Event) (d e : Dict String Event)
    → contains j d ≡ false
    → events_at (ids_where p d) ((j, x) ∷ e) ≡ events_at (ids_where p d) e
events_at-skip p j x [] e h = refl
events_at-skip p j x ((i, y) ∷ d) e h = elim (Bool-cases (p y)) [
  | inl t ↦
      let off : (j == i) ≡ false = ground (arith, beq_eq j i, beq_refl j) in
      rw (t, events_at) (rw (off, events_at-skip p j x d e (ground arith)) refl)
  | inr f ↦ rw (f, events_at-skip p j x d e (ground arith)) refl
]

events_at-ids_where :
    (p : Event → Bool) (d : Dict String Event)
    → IsNodup d
    → events_at (ids_where p d) d ≡ keep_if p (values d)
events_at-ids_where p [] n = refl
events_at-ids_where p ((j, x) ∷ d) n =
    let rest = events_at-skip p j x d d n.0 ∙ events_at-ids_where p d n.1 in
    elim (Bool-cases (p x)) [
      | inl t ↦ rw (t, events_at) (rw (beq_refl j, rest) refl)
      | inr f ↦ rw (f, rest) refl
    ]

-- However the store was reached, the events that it gives as unapplied are those of all its events
-- that are not applied, and the events that it gives for an account are those of the account, in
-- the order in which they were appended. Each appended event has an id that was not in use.
pub get_events-Run :
    (s : EventStore)
    → Run s
    → (get_unapplied_events s ≡ keep_if pending (all_events s))
      × ((a : ℕ) → get_account_events a s ≡ keep_if (of_account a) (all_events s))
unfolding get_unapplied_events get_account_events all_events
get_events-Run s r =
    let h = Run-IsIndexed r in
    (
      rw h.by_state (events_at-ids_where pending s.events h.nodup),
      λ a. rw (h.by_account a) (events_at-ids_where (of_account a) s.events h.nodup),
    )
