-- ===== src/Dict.antt =====
-- Python's `dict`: an association list in insertion order.
use mobile_money_simulator.Prelude.{
  ℕ, ◌≡◌, refl, ◌≢◌, ◌⊎◌, inl, inr, Bool, true, false, Option, none, some, List, [], ◌∷◌, ◌++◌,
  arith, Eq, ◌==◌, if◌then◌else◌, Bool-cases, All, beq_eq, beq_refl,
}

abbrev pub Dict : Type 0 → Type 0 → Type 0
Dict K V = List (K × V)

module _ {K V : Type 0} ⦃e : Eq K⦄ where
  -- d.get(k)
  abbrev pub lookup : K → Dict K V → Option V
  lookup k [] = none
  lookup k ((j, v) ∷ d) = if j == k then some v else lookup k d

  -- k in d
  abbrev pub contains : K → Dict K V → Bool
  contains k [] = false
  contains k ((j, v) ∷ d) = if j == k then true else contains k d

  -- d[k] = v: in place, or a new entry at the end
  abbrev pub insert : K → V → Dict K V → Dict K V
  insert k v [] = (k, v) ∷ []
  insert k v ((j, w) ∷ d) = if j == k then (j, v) ∷ d else (j, w) ∷ insert k v d

  -- del d[k]
  abbrev pub erase : K → Dict K V → Dict K V
  erase k [] = []
  erase k ((j, w) ∷ d) = let rest = erase k d in if j == k then rest else (j, w) ∷ rest

  -- No key stands twice, as in every dict.
  abbrev pub IsNodup : Dict K V → Type 0
  IsNodup [] = Unit
  IsNodup ((j, w) ∷ d) = (contains j d ≡ false) × IsNodup d

-- d.values()
abbrev pub values : {K V : Type 0} → Dict K V → List V
values [] = []
values ((j, v) ∷ d) = v ∷ values d

-- d.keys()
abbrev pub keys : {K V : Type 0} → Dict K V → List K
keys [] = []
keys ((j, v) ∷ d) = j ∷ keys d

module _ {K V : Type 0} ⦃e : Eq K⦄ where
  pub lookup-insert :
      (k j : K) (v : V) (d : Dict K V)
      → lookup j (insert k v d) ≡ (if k == j then some v else lookup j d)
  lookup-insert k j v [] = refl
  lookup-insert k j v ((i, w) ∷ d) =
      ground
        (arith, beq_eq i k, beq_eq i j, beq_eq k j, beq_refl k, beq_refl i, lookup-insert k j v d)

  pub lookup-erase :
      (k j : K) (d : Dict K V) → lookup j (erase k d) ≡ (if k == j then none else lookup j d)
  lookup-erase k j [] = ground arith
  lookup-erase k j ((i, w) ∷ d) =
      ground (arith, beq_eq i k, beq_eq i j, beq_eq k j, beq_refl k, beq_refl i, lookup-erase k j d)

  pub contains-lookup : (k : K) (d : Dict K V) → contains k d ≡ false → lookup k d ≡ none
  contains-lookup k [] h = refl
  contains-lookup k ((j, w) ∷ d) h = ground (arith, contains-lookup k d)

  pub lookup-contains : (k : K) (d : Dict K V) → lookup k d ≡ none → contains k d ≡ false
  lookup-contains k [] h = refl
  lookup-contains k ((j, w) ∷ d) h = ground (arith, lookup-contains k d)

  pub contains-insert :
      (k j : K) (v : V) (d : Dict K V)
      → contains j (insert k v d) ≡ (if k == j then true else contains j d)
  contains-insert k j v [] = refl
  contains-insert k j v ((i, w) ∷ d) =
      ground
        (arith, beq_eq i k, beq_eq i j, beq_eq k j, beq_refl k, beq_refl i, contains-insert k j v d)

  -- A new key goes to the end.
  pub insert_fresh :
      (k : K) (v : V) (d : Dict K V) → contains k d ≡ false → insert k v d ≡ d ++ (k, v) ∷ []
  insert_fresh k v [] h = refl
  insert_fresh k v ((j, w) ∷ d) h = ground (arith, insert_fresh k v d)

  pub erase_absent : (k : K) (d : Dict K V) → contains k d ≡ false → erase k d ≡ d
  erase_absent k [] h = refl
  erase_absent k ((j, w) ∷ d) h = ground (arith, erase_absent k d)

  -- A new entry that is erased leaves the dict as it was.
  pub erase-insert :
      (k : K) (v : V) (d : Dict K V) → contains k d ≡ false → erase k (insert k v d) ≡ d
  erase-insert k v [] h = ground (arith, beq_refl k)
  erase-insert k v ((j, w) ∷ d) h = ground (arith, erase-insert k v d)

  pub insert-IsNodup : (k : K) (v : V) (d : Dict K V) → IsNodup d → IsNodup (insert k v d)
  insert-IsNodup k v [] h = (refl, tt)
  insert-IsNodup k v ((j, w) ∷ d) h = elim (Bool-cases (j == k)) [
    | inl t ↦ rw t h
    | inr f ↦
        rw f (
          ground (arith, contains-insert k j v d, beq_eq k j, beq_refl j),
          insert-IsNodup k v d h.1,
        )
  ]

  -- What is found under a key satisfies what all entries satisfy.
  pub All_lookup {κ} :
      (P : K × V → Type κ) (k : K) (v : V) (d : Dict K V) → All P d → lookup k d ≡ some v → P (k, v)
  All_lookup P k v [] h found = cc
  All_lookup P k v ((j, w) ∷ d) h found = elim (Bool-cases (j == k)) [
    | inl t ↦ let same : w ≡ v = ground arith in rw (← beq_eq j k t, ← same) h.0
    | inr f ↦ All_lookup P k v d h.1 (ground arith)
  ]

  pub contains-erase :
      (k j : K) (d : Dict K V) → contains j (erase k d) ≡ (if k == j then false else contains j d)
  contains-erase k j [] = ground arith
  contains-erase k j ((i, w) ∷ d) =
      ground
        (arith, beq_eq i k, beq_eq i j, beq_eq k j, beq_refl k, beq_refl i, contains-erase k j d)

  pub All-insert {κ} :
      (P : K × V → Type κ) (k : K) (v : V) (d : Dict K V)
      → P (k, v)
      → All P d
      → All P (insert k v d)
  All-insert P k v [] p h = (p, tt)
  All-insert P k v ((j, w) ∷ d) p h = elim (Bool-cases (j == k)) [
    | inl t ↦ rw t (rw (beq_eq j k t) p, h.1)
    | inr f ↦ rw f (h.0, All-insert P k v d p h.1)
  ]

  pub All-erase {κ} : (P : K × V → Type κ) (k : K) (d : Dict K V) → All P d → All P (erase k d)
  All-erase P k [] h = tt
  All-erase P k ((j, w) ∷ d) h = elim (Bool-cases (j == k)) [
    | inl t ↦ rw t (All-erase P k d h.1)
    | inr f ↦ rw f (h.0, All-erase P k d h.1)
  ]

-- For `simp`: reading a dict after a write.
pub ruleset dict_laws = (lookup-insert, lookup-erase, contains-insert, beq_refl)
