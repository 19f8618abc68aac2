-- ===== src/Hashing/Ring.antt =====
-- Which keys move when a node is added to the ring.
use mobile_money_simulator.Prelude.{
  ℕ, zero, suc, ◌+◌, ◌<◌, String, ◌≡◌, ◌⊎◌, refl, sym, ap, ◌∙◌, inl, inr, true, false, List, [],
  ◌∷◌, ◌++◌, Option, none, some, ltb, leb, arith, ◌==◌, Bool-cases, Option-cases, beq_eq, beq_refl,
  nat_eq, string_eq, All, elem,
}
use mobile_money_simulator.Prelude.Sort.{insert_by, All-sort_by}
use mobile_money_simulator.Dict.{
  Dict, lookup, contains, insert, keys, insert_fresh, lookup-insert, lookup-contains,
}
use mobile_money_simulator.Hashing.{
  ServerNode, ConsistentHash, sorted, virtual_key, salted_key, free_position, add_virtual,
  with_ring, add_node, key_after, first_key, or_first, node_at, owner, get_node,
}

abbrev put : ℕ → List ℕ → List ℕ
put p ks = insert_by (λ k. k) p ks

put_comm : (p q : ℕ) (ks : List ℕ) → put p (put q ks) ≡ put q (put p ks)
put_comm p q [] = ground arith
put_comm p q (k ∷ ks) = ground (arith, put_comm p q ks)

sorted-snoc : (p : ℕ) (ks : List ℕ) → sorted (ks ++ p ∷ []) ≡ put p (sorted ks)
sorted-snoc p [] = refl
sorted-snoc p (k ∷ ks) = ap (put k) (sorted-snoc p ks) ∙ put_comm k p (sorted ks)

keys-snoc :
    (p : ℕ) (node : ServerNode) (ring : Dict ℕ ServerNode)
    → keys (ring ++ (p, node) ∷ []) ≡ keys ring ++ p ∷ []
keys-snoc p node [] = refl
keys-snoc p node ((k, x) ∷ ring) = ap (λ l. k ∷ l) (keys-snoc p node ring)

key_after-put :
    (h p : ℕ) (ks : List ℕ)
    → (key_after h (put p ks) ≡ some p) ⊎ (key_after h (put p ks) ≡ key_after h ks)
key_after-put h p [] = ground arith
key_after-put h p (k ∷ ks) = ground (arith, key_after-put h p ks)

first_key-put :
    (p : ℕ) (ks : List ℕ) → (first_key (put p ks) ≡ some p) ⊎ (first_key (put p ks) ≡ first_key ks)
first_key-put p [] = inl refl
first_key-put p (k ∷ ks) = ground arith

-- The key that is chosen after one more key: that key, or the one before.
chosen-put :
    (h p : ℕ) (ks : List ℕ)
    → (or_first (key_after h (put p ks)) (put p ks) ≡ some p)
      ⊎ (or_first (key_after h (put p ks)) (put p ks) ≡ or_first (key_after h ks) ks)
chosen-put h p ks = elim (key_after-put h p ks) [
  | inl new ↦ inl (rw new refl)
  | inr same ↦ elim (Option-cases (key_after h ks)) [
    | inr (k, later) ↦ inr (rw (same, later) refl)
    | inl none_later ↦ elim (first_key-put p ks) [
      | inl new ↦ inl (rw (same, none_later, new) refl)
      | inr old ↦ inr (rw (same, none_later, old) refl)
    ]
  ]
]

-- The keys of the ring have their nodes after a new position, too.
node_at-insert :
    (p : ℕ) (node : ServerNode) (o : Option ℕ) (ring : Dict ℕ ServerNode)
    → (node_at o (insert p node ring) ≡ some node)
      ⊎ (node_at o (insert p node ring) ≡ node_at o ring)
node_at-insert p node none ring = inr refl
node_at-insert p node (some k) ring = elim (Bool-cases (p == k)) [
  | inl same ↦ inl (lookup-insert p k node ring ∙ rw same refl)
  | inr other ↦ inr (lookup-insert p k node ring ∙ rw other refl)
]

abbrev owner_of : ℕ → Dict ℕ ServerNode → Option ServerNode
owner_of h ring = owner h (sorted (keys ring)) ring

-- One more position for a node.
owner-insert :
    (h p : ℕ) (node : ServerNode) (ring : Dict ℕ ServerNode)
    → contains p ring ≡ false
    → (owner_of h (insert p node ring) ≡ some node)
      ⊎ (owner_of h (insert p node ring) ≡ owner_of h ring)
owner-insert h p node ring fresh =
    let ks : sorted (keys (insert p node ring)) ≡ put p (sorted (keys ring)) =
      ap (λ d. sorted (keys d)) (insert_fresh p node ring fresh)
      ∙ ap sorted (keys-snoc p node ring)
      ∙ sorted-snoc p (keys ring) in
    let moved : owner_of h (insert p node ring)
        ≡ node_at (or_first (key_after h (put p (sorted (keys ring)))) (put p (sorted (keys ring))))
            (insert p node ring) =
      ap (λ l. owner h l (insert p node ring)) ks in
    elim (chosen-put h p (sorted (keys ring))) [
      | inl new ↦ inl (
          moved
          ∙ ap (λ o. node_at o (insert p node ring)) new
          ∙ lookup-insert p p node ring
          ∙ rw (beq_refl p) refl)
      | inr same ↦ elim (node_at-insert p node _ ring) [
        | inl new ↦ inl (moved ∙ ap (λ o. node_at o (insert p node ring)) same ∙ new)
        | inr old ↦ inr (moved ∙ ap (λ o. node_at o (insert p node ring)) same ∙ old)
      ]
    ]

-- The position that the salting finds is free.
free_position-fresh :
    (hash : String → ℕ) (str : ℕ → String) (tries : ℕ) (key : String) (salt h p : ℕ)
    (ring : Dict ℕ ServerNode)
    → free_position hash str tries key salt h ring ≡ some p
    → contains p ring ≡ false
free_position-fresh hash str zero key salt h p ring found = elim (Bool-cases (contains h ring)) [
  | inl taken ↦ absurd (never (rw (← found, taken) refl))
  | inr free ↦ rw (← same (rw (← found, free) refl)) free
]
  where
    never : none ≡ some p → ⊥
    never e = cc

    same : some h ≡ some p → h ≡ p
    same e = cc
free_position-fresh hash str (suc tries) key salt h p ring found =
    elim (Bool-cases (contains h ring)) [
      | inl taken ↦
          free_position-fresh hash str tries key (salt + 1)
            (hash (salted_key hash str key (salt + 1))) p ring (rw (← found, taken) refl)
      | inr free ↦ rw (← same (rw (← found, free) refl)) free
    ]
  where
    same : some h ≡ some p → h ≡ p
    same e = cc

module _ (hash : String → ℕ) (str : ℕ → String) where
  add_virtual_moves :
      (tries count i h : ℕ) (node : ServerNode) (ring ring' : Dict ℕ ServerNode)
      → add_virtual hash str tries count i node ring ≡ some ring'
      → (owner_of h ring' ≡ some node) ⊎ (owner_of h ring' ≡ owner_of h ring)
  unfolding add_virtual
  add_virtual_moves tries zero i h node ring ring' done = inr (ap (owner_of h) (sym (same done)))
    where
      same : some ring ≡ some ring' → ring ≡ ring'
      same e = cc
  add_virtual_moves tries (suc count) i h node ring ring' done =
      let key = virtual_key hash str node.node_id i in
      elim (Option-cases (free_position hash str tries key 0 (hash key) ring)) [
        | inl full ↦ absurd (never (rw (← done, full) refl))
        | inr (p, found) ↦
            elim (add_virtual_moves tries count (i + 1) h node (insert p node ring) ring'
              (rw (← done, found) refl)) [
                | inl new ↦ inl new
                | inr kept ↦
                    elim (owner-insert h p node ring
                      (free_position-fresh hash str tries key 0 (hash key) p ring found)) [
                        | inl new ↦ inl (kept ∙ new)
                        | inr old ↦ inr (kept ∙ old)
                      ]
              ]
      ]
    where
      never : none ≡ some ring' → ⊥
      never e = cc

-- The sorted keys are those of the ring.
abbrev pub IsOrdered : ConsistentHash → Type 0
IsOrdered r = r.sorted_keys ≡ sorted (keys r.hash_ring)

module _ (hash : String → ℕ) (str : ℕ → String) (normalize : String → String) where
  -- When a node is added, every key either moves to the new node or keeps its node, whatever the
  -- hash function, the virtual nodes and their collisions; the sorted keys stay those of the ring.
  -- The ring's sorted keys are its keys before, and the salting of colliding positions ends.
  pub get_node-add_node :
      (tries : ℕ) (node : ServerNode) (r r' : ConsistentHash) (key : String)
      → IsOrdered r
      → add_node hash str tries node r ≡ some r'
      → ((get_node hash normalize key r' ≡ some node)
          ⊎ (get_node hash normalize key r' ≡ get_node hash normalize key r))
        × IsOrdered r'
  unfolding get_node add_node
  get_node-add_node tries node r r' key ordered done =
      elim (Bool-cases (contains node.node_id r.nodes)) [
        | inl known ↦
            let same : r ≡ r' = inj (rw (← done, known) refl) in
            (inr (ap place_of (sym same)), rw (← same) ordered)
        | inr new ↦
            added (add_virtual hash str tries r.virtual_nodes 0 node r.hash_ring) refl
              (rw (← done, new) refl)
      ]
    where
      place_of : ConsistentHash → Option ServerNode
      place_of x = owner (hash (normalize key)) x.sorted_keys x.hash_ring

      inj : {x y : ConsistentHash} → some x ≡ some y → x ≡ y
      inj e = cc

      none_some : {x : ConsistentHash} → none ≡ some x → ⊥
      none_some e = cc

      added :
          (o : Option (Dict ℕ ServerNode))
          → add_virtual hash str tries r.virtual_nodes 0 node r.hash_ring ≡ o
          → with_ring hash str o node r ≡ some r'
          → ((owner (hash (normalize key)) r'.sorted_keys r'.hash_ring ≡ some node)
              ⊎ (owner (hash (normalize key)) r'.sorted_keys r'.hash_ring
                  ≡ owner (hash (normalize key)) r.sorted_keys r.hash_ring))
            × IsOrdered r'
      added none e result = absurd (none_some result)
      added (some ring') e result =
          let now = inj result in
          let before : owner (hash (normalize key)) r.sorted_keys r.hash_ring
              ≡ owner_of (hash (normalize key)) r.hash_ring =
            ap (λ l. owner (hash (normalize key)) l r.hash_ring) ordered in
          (
            elim (add_virtual_moves hash str tries r.virtual_nodes 0 (hash (normalize key)) node
                r.hash_ring ring' e) [
                  | inl new ↦ inl (ap owned (sym now) ∙ new)
                  | inr old ↦ inr (ap owned (sym now) ∙ old ∙ sym before)
                ],
            rw (← now) refl,
          )
        where
          owned : ConsistentHash → Option ServerNode
          owned x = owner (hash (normalize key)) x.sorted_keys x.hash_ring

-- Every key of the ring has its node.
found_in :
    (k : ℕ) (ring : Dict ℕ ServerNode)
    → contains k ring ≡ true
    → (node : ServerNode) × (lookup k ring ≡ some node)
found_in k ring h = elim (Option-cases (lookup k ring)) [
  | inl absent ↦ absurd (clash (lookup-contains k ring absent))
  | inr found ↦ found
]
  where
    clash : contains k ring ≡ false → ⊥
    clash e = cc

all_contained :
    (ks : List ℕ) (ring : Dict ℕ ServerNode)
    → ((k : ℕ) → elem k ks ≡ true → contains k ring ≡ true)
    → All (λ k. contains k ring ≡ true) ks
all_contained [] ring f = tt
all_contained (k ∷ ks) ring f =
    (f k (ground (arith, beq_refl k)), all_contained ks ring (λ j h. f j (ground (arith, h))))

keys_contained :
    (ring : Dict ℕ ServerNode) (k : ℕ) → elem k (keys ring) ≡ true → contains k ring ≡ true
keys_contained [] k h = cc
keys_contained ((j, x) ∷ ring) k h = ground (arith, keys_contained ring k, beq_eq k j, beq_refl j)

key_after-All :
    (ring : Dict ℕ ServerNode) (h k : ℕ) (ks : List ℕ)
    → All (λ j. contains j ring ≡ true) ks
    → key_after h ks ≡ some k
    → contains k ring ≡ true
key_after-All ring h k [] all found = cc
key_after-All ring h k (j ∷ ks) all found = elim (Bool-cases (ltb h j)) [
  | inl later ↦ rw (← inj (rw (← found, later) refl)) all.0
  | inr passed ↦ key_after-All ring h k ks all.1 (rw (← found, passed) refl)
]
  where
    inj : some j ≡ some k → j ≡ k
    inj e = cc

-- A ring that is not empty gives a node for every key. Its sorted keys are its keys.
pub get_node_total :
    (hash : String → ℕ) (normalize : String → String) (key : String) (p : ℕ) (x : ServerNode)
    (rest : Dict ℕ ServerNode) (r : ConsistentHash)
    → IsOrdered r
    → r.hash_ring ≡ (p, x) ∷ rest
    → (node : ServerNode) × (get_node hash normalize key r ≡ some node)
unfolding get_node
get_node_total hash normalize key p x rest r ordered filled =
    let ring = (p, x) ∷ rest in
    let all =
      All-sort_by (λ k. k) (λ k. contains k ring ≡ true) (keys ring)
        (all_contained (keys ring) ring (keys_contained ring)) in
    let (node, owned) =
      chosen ring (sorted (keys ring)) all (nonempty_put p (sorted (keys rest))) in
    (
      node,
      ap (λ l. owner (hash (normalize key)) l r.hash_ring) ordered
          ∙ ap (λ d. owner_of (hash (normalize key)) d) filled
          ∙ owned,
    )
  where
    nonempty_put : (p : ℕ) (ks : List ℕ) → (k : ℕ) × (first_key (put p ks) ≡ some k)
    nonempty_put p [] = (p, refl)
    nonempty_put p (k ∷ ks) = elim (Bool-cases (leb p k)) [
      | inl t ↦ (p, rw t refl)
      | inr f ↦ (k, rw f refl)
    ]

    first_contained :
        (ring : Dict ℕ ServerNode) (k : ℕ) (ks : List ℕ)
        → All (λ j. contains j ring ≡ true) ks
        → first_key ks ≡ some k
        → contains k ring ≡ true
    first_contained ring k [] all e = cc
    first_contained ring k (j ∷ ks) all e = let same : j ≡ k = cc in rw (← same) all.0

    chosen :
        (ring : Dict ℕ ServerNode) (ks : List ℕ)
        → All (λ j. contains j ring ≡ true) ks
        → (k : ℕ) × (first_key ks ≡ some k)
        → (node : ServerNode) × (owner (hash (normalize key)) ks ring ≡ some node)
    chosen ring ks all (k, first) = elim (Option-cases (key_after (hash (normalize key)) ks)) [
      | inr (j, later) ↦
          let (node, found) =
            found_in j ring (key_after-All ring (hash (normalize key)) j ks all later) in
          (node, rw later found)
      | inl none_later ↦
          let (node, found) = found_in k ring (first_contained ring k ks all first) in
          (node, rw (none_later, first) found)
    ]

free_at_once :
    (hash : String → ℕ) (str : ℕ → String) (tries : ℕ) (key : String) (salt h : ℕ)
    (ring : Dict ℕ ServerNode)
    → contains h ring ≡ false
    → (p : ℕ) × (free_position hash str tries key salt h ring ≡ some p)
free_at_once hash str zero key salt h ring free = (h, rw free refl)
free_at_once hash str (suc tries) key salt h ring free = (h, rw free refl)

-- Salting ends when a salt within the tries gives a free position.
pub free_position_found :
    (hash : String → ℕ) (str : ℕ → String) (tries : ℕ) (key : String) (salt h s : ℕ)
    (ring : Dict ℕ ServerNode)
    → s < tries
    → contains (hash (salted_key hash str key (salt + 1 + s))) ring ≡ false
    → (p : ℕ) × (free_position hash str tries key salt h ring ≡ some p)
free_position_found hash str zero key salt h s ring bound free = absurd (omega arith)
free_position_found hash str (suc tries) key salt h zero ring bound free =
    let next = hash (salted_key hash str key (salt + 1)) in
    let here : salt + 1 ≡ salt + 1 + zero = omega arith in
    let (p, found) =
      free_at_once hash str tries key (salt + 1) next ring
        (ap (λ n. contains (hash (salted_key hash str key n)) ring) here ∙ free) in
    elim (Bool-cases (contains h ring)) [
      | inr open_place ↦ (h, rw open_place refl)
      | inl taken ↦ (p, rw taken found)
    ]
free_position_found hash str (suc tries) key salt h (suc s) ring bound free =
    let next = hash (salted_key hash str key (salt + 1)) in
    let shift : salt + 1 + 1 + s ≡ salt + 1 + suc s = omega arith in
    let (p, found) =
      free_position_found hash str tries key (salt + 1) next s ring (omega arith)
        (ap (λ n. contains (hash (salted_key hash str key n)) ring) shift ∙ free) in
    elim (Bool-cases (contains h ring)) [
      | inr open_place ↦ (h, rw open_place refl)
      | inl taken ↦ (p, rw taken found)
    ]
