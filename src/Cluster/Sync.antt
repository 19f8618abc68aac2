-- ===== src/Cluster/Sync.antt =====
-- What a sync brings from the remote nodes.
use mobile_money_simulator.Prelude.{
  ℕ, ◌<◌, String, ◌≡◌, refl, ◌∙◌, inl, inr, Bool, true, false, List, [], ◌∷◌, ◌++◌, some,
  if◌then◌else◌, Bool-cases, Option-cases, arith, nat_beq, leb, ltb, elem, ◌==◌, nat_eq, string_eq,
  beq_eq, All, All-snoc,
}
use mobile_money_simulator.Prelude.Sort.{insert_by, IsSorted, sort_by-IsSorted}
use mobile_money_simulator.Dict.{
  Dict, lookup, contains, insert, values, contains-insert, insert_fresh,
}
use mobile_money_simulator.EventLog.{TransactionEvent, newer, by_id, get_event, get_events_after}
use mobile_money_simulator.Node.{Node}
use mobile_money_simulator.Cluster.{Cluster, collect, first_of_each, sync_events}

-- Some event of the list has the id.
abbrev pub has_id : ℕ → List TransactionEvent → Bool
has_id k [] = false
has_id k (e ∷ es) = if nat_beq e.event_id k then true else has_id k es

has_id-append :
    (k : ℕ) (es fs : List TransactionEvent)
    → has_id k (es ++ fs) ≡ (if has_id k es then true else has_id k fs)
has_id-append k [] fs = refl
has_id-append k (e ∷ es) fs = ground (arith, has_id-append k es fs)

has_id-insert_by :
    (k : ℕ) (e : TransactionEvent) (es : List TransactionEvent)
    → has_id k (insert_by (λ e. e.event_id) e es) ≡ has_id k (e ∷ es)
has_id-insert_by k e [] = refl
has_id-insert_by k e (f ∷ es) = elim (Bool-cases (leb e.event_id f.event_id)) [
  | inl t ↦ rw t refl
  | inr s ↦
      rw (s, has_id-insert_by k e es)
        (swap (nat_beq e.event_id k) (nat_beq f.event_id k) (has_id k es))
]
  where
    swap :
        (a b r : Bool)
        → (if b then true else if a then true else r) ≡ (if a then true else if b then true else r)
    swap true true r = refl
    swap true false r = refl
    swap false true r = refl
    swap false false r = refl

has_id-by_id : (k : ℕ) (es : List TransactionEvent) → has_id k (by_id es) ≡ has_id k es
has_id-by_id k [] = refl
has_id-by_id k (e ∷ es) = has_id-insert_by k e (by_id es) ∙ rw (has_id-by_id k es) refl

has_id-newer :
    (after k : ℕ) (e : TransactionEvent) (d : Dict ℕ TransactionEvent)
    → lookup k d ≡ some e
    → e.event_id ≡ k
    → after < k
    → has_id k (newer after d) ≡ true
has_id-newer after k e [] found filed later = cc
has_id-newer after k e ((j, f) ∷ d) found filed later = elim (Bool-cases (nat_beq j k)) [
  | inl here ↦
      let same : f ≡ e = ground arith in
      let asked : ltb after j ≡ true = ground arith in rw (asked, same, filed) (ground arith)
  | inr there ↦
      let rest : has_id k (newer after d) ≡ true =
        has_id-newer after k e d (ground arith) filed later in
      elim (Bool-cases (ltb after j)) [
        | inl asked ↦ rw (asked, rest) (ground arith)
        | inr old ↦ rw old rest
      ]
]

has_id-collect :
    (k after : ℕ) (remote : String) (ids : List String) (m : Node) (c : Cluster)
    → elem remote ids ≡ true
    → lookup remote c ≡ some m
    → has_id k (get_events_after after m.event_log) ≡ true
    → has_id k (collect after ids c) ≡ true
unfolding collect
has_id-collect k after remote [] m c listed found has = cc
has_id-collect k after remote (r ∷ ids) m c listed found has = elim (Bool-cases (remote == r)) [
  | inl same ↦ rw (← beq_eq remote r same) first
  | inr other ↦
      let rest : has_id k (collect after ids c) ≡ true =
        has_id-collect k after remote ids m c (ground arith) found has in
      elim (Option-cases (lookup r c)) [
        | inl raised ↦ rw (raised, collect) rest
        | inr (n, there) ↦
            rw (there, collect)
              (has_id-append k (get_events_after after n.event_log) (collect after ids c)
                ∙ rw rest (always (has_id k (get_events_after after n.event_log))))
      ]
]
  where
    always : (b : Bool) → (if b then true else true) ≡ true
    always true = refl
    always false = refl

    first : has_id k (collect after (remote ∷ ids) c) ≡ true
    first =
        unfold collect in
        rw (found, collect)
          (has_id-append k (get_events_after after m.event_log) (collect after ids c) ∙ rw has refl)

contains-first_of_each :
    (k : ℕ) (es : List TransactionEvent) (seen : Dict ℕ TransactionEvent)
    → contains k (first_of_each es seen) ≡ (if contains k seen then true else has_id k es)
unfolding first_of_each
contains-first_of_each k [] seen = ground arith
contains-first_of_each k (e ∷ es) seen =
    contains-first_of_each k es
      (if contains e.event_id seen then seen else insert e.event_id e seen)
    ∙ elim (Bool-cases (contains e.event_id seen)) [
      | inl known ↦ rw known (old (nat_beq e.event_id k) refl known)
      | inr fresh ↦
          rw (fresh, contains-insert e.event_id k e seen)
            (swap (nat_beq e.event_id k) (contains k seen) (has_id k es))
    ]
  where
    swap :
        (a b r : Bool)
        → (if (if a then true else b) then true else r)
          ≡ (if b then true else if a then true else r)
    swap true true r = refl
    swap true false r = refl
    swap false true r = refl
    swap false false r = refl

    old :
        (a : Bool)
        → nat_beq e.event_id k ≡ a
        → contains e.event_id seen ≡ true
        → (if contains k seen then true else has_id k es)
          ≡ (if contains k seen then true else if a then true else has_id k es)
    old true same known =
        let here : contains k seen ≡ true = rw (← beq_eq e.event_id k same) known in rw here refl
    old false same known = refl

abbrev Filed : Dict ℕ TransactionEvent → Type 0
Filed = All (λ entry. entry.1.event_id ≡ entry.0)

has_id-values : (k : ℕ) (d : Dict ℕ TransactionEvent) → Filed d → has_id k (values d) ≡ contains k d
has_id-values k [] h = refl
has_id-values k ((j, e) ∷ d) h = rw (h.0, has_id-values k d h.1) refl

first_of_each-Filed :
    (es : List TransactionEvent) (seen : Dict ℕ TransactionEvent)
    → Filed seen
    → Filed (first_of_each es seen)
unfolding first_of_each
first_of_each-Filed [] seen h = h
first_of_each-Filed (e ∷ es) seen h =
    first_of_each-Filed es _ (elim (Bool-cases (contains e.event_id seen)) [
      | inl known ↦ rw known h
      | inr new ↦
          rw (new, insert_fresh e.event_id e seen new)
            (All-snoc (λ entry. entry.1.event_id ≡ entry.0) seen (e.event_id, e) h refl)
    ])

-- Every event of a remote node that is later than the node's checkpoint and filed under its id is
-- brought by the sync, or another event with its id is in its place; and the events that are
-- brought come in ascending order of their ids.
pub sync_events_covers :
    (n m : Node) (remote : String) (k : ℕ) (e : TransactionEvent) (c : Cluster)
    → elem remote n.remote_nodes ≡ true
    → lookup remote c ≡ some m
    → get_event k m.event_log ≡ some e
    → e.event_id ≡ k
    → n.checkpoint.last_event_id < k
    → (has_id k (sync_events n c) ≡ true) × IsSorted (λ e. e.event_id) (sync_events n c)
unfolding sync_events get_event get_events_after
sync_events_covers n m remote k e c listed found filed_there filed later =
    let after = n.checkpoint.last_event_id in
    let events = collect after n.remote_nodes c in
    let there : has_id k events ≡ true =
      has_id-collect k after remote n.remote_nodes m c listed found (
        has_id-by_id k (newer after m.event_log.events)
        ∙ has_id-newer after k e m.event_log.events filed_there filed later) in
    (
      has_id-by_id k (values (first_of_each events []))
          ∙ has_id-values k (first_of_each events []) (first_of_each-Filed events [] tt)
          ∙ contains-first_of_each k events []
          ∙ there,
      sort_by-IsSorted (λ e. e.event_id) (values (first_of_each events [])),
    )
