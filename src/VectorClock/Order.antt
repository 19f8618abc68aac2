-- ===== src/VectorClock/Order.antt =====
-- The comparisons of vector clocks against the pointwise order of their counters.
use mobile_money_simulator.Prelude.{
  ℕ, ◌≤◌, String, ◌≡◌, refl, sym, ◌∙◌, ◌↔◌, ◌⊎◌, inl, inr, Bool, true, false, not, List, [], ◌∷◌,
  ◌++◌, leb, nat_beq, arith, ◌==◌, Bool-cases, beq_eq, beq_refl, nat_eq, string_eq, elem,
}
use mobile_money_simulator.Dict.{keys}
use native.Mathlib.Nat.{le_trans}
use mobile_money_simulator.VectorClock.{
  Clock, EventOrder, at, all_of, all_servers, le_other, equals, happens_before, is_concurrent,
  compare,
}

-- Every counter of the one is at most the other's; the counters agree.
abbrev pub Below : Clock → Clock → Type 0
Below a b = (s : String) → at a s ≤ at b s

abbrev pub Same : Clock → Clock → Type 0
Same a b = (s : String) → at a s ≡ at b s

all_of-elem :
    (p : String → Bool) (xs : List String) (s : String)
    → all_of p xs ≡ true
    → elem s xs ≡ true
    → p s ≡ true
all_of-elem p [] s h m = cc
all_of-elem p (x ∷ xs) s h m = elim (Bool-cases (s == x)) [
  | inl same ↦ rw (beq_eq s x same) (ground arith)
  | inr other ↦ all_of-elem p xs s (ground arith) (ground arith)
]

all_of-true :
    (p : String → Bool) (xs : List String) → ((s : String) → p s ≡ true) → all_of p xs ≡ true
all_of-true p [] h = refl
all_of-true p (x ∷ xs) h = rw (h x, all_of-true p xs h) refl

elem-append :
    (s : String) (xs ys : List String)
    → elem s (xs ++ ys) ≡ false
    → (elem s xs ≡ false) × (elem s ys ≡ false)
elem-append s [] ys h = (refl, h)
elem-append s (x ∷ xs) ys h = ground (arith, elem-append s xs ys)

at-unknown : (s : String) (c : Clock) → elem s (keys c) ≡ false → at c s ≡ 0
at-unknown s [] h = refl
at-unknown s ((k, n) ∷ c) h = ground (arith, at-unknown s c, beq_eq k s, beq_refl k)

-- A test on the counters that holds where both are zero is decided by the known servers.
all_servers_iff :
    (q : ℕ → ℕ → Bool) (a b : Clock)
    → q 0 0 ≡ true
    → (all_of (λ sid. q (at a sid) (at b sid)) (all_servers a b) ≡ true)
      ↔ ((s : String) → q (at a s) (at b s) ≡ true)
all_servers_iff q a b zero_ok = (
  λ h s. elim (Bool-cases (elem s (all_servers a b))) [
    | inl known ↦ all_of-elem (λ sid. q (at a sid) (at b sid)) (all_servers a b) s h known
    | inr unknown ↦
        let (ua, ub) = elem-append s (keys a) (keys b) unknown in
        rw (at-unknown s a ua, at-unknown s b ub) zero_ok
  ],
  λ h. all_of-true (λ sid. q (at a sid) (at b sid)) (all_servers a b) h,
)

pub le_other_iff : (a b : Clock) → (le_other a b ≡ true) ↔ Below a b
unfolding le_other
le_other_iff a b =
    let both = all_servers_iff leb a b refl in
    (
      λ h s. leb_le (at a s) (at b s) (both.0 h s),
      λ h. both.1 (λ s. le_leb (at a s) (at b s) (h s)),
    )
  where
    leb_le : (m n : ℕ) → leb m n ≡ true → m ≤ n
    leb_le m n h = ground arith

    le_leb : (m n : ℕ) → m ≤ n → leb m n ≡ true
    le_leb m n h = ground arith

pub equals_iff : (a b : Clock) → (equals a b ≡ true) ↔ Same a b
unfolding equals
equals_iff a b =
    let both = all_servers_iff nat_beq a b refl in
    (
      λ h s. beq_eq (at a s) (at b s) (both.0 h s),
      λ h. both.1 (λ s. eq_beq (at a s) (at b s) (h s)),
    )
  where
    eq_beq : (m n : ℕ) → m ≡ n → nat_beq m n ≡ true
    eq_beq m n h = ground arith

-- One event happened before another exactly if all its counters are at most the other's, and
-- they do not all agree.
pub happens_before_iff : (a b : Clock) → (happens_before a b ≡ true) ↔ (Below a b × ¬ Same a b)
unfolding happens_before
happens_before_iff a b = (
  λ h.
      ((le_other_iff a b).0 (ground arith), λ same. clash ((equals_iff a b).1 same) (ground arith)),
  λ h. rw ((le_other_iff a b).1 h.0) (refuted (equals a b) (λ e. h.1 ((equals_iff a b).0 e))),
)
  where
    clash : equals a b ≡ true → equals a b ≡ false → ⊥
    clash p q = cc

    refuted : (c : Bool) → ¬ (c ≡ true) → not c ≡ true
    refuted true n = absurd (n refl)
    refuted false n = refl

-- "Happened before" is a strict order.
pub happens_before_trans :
    (a b c : Clock)
    → happens_before a b ≡ true
    → happens_before b c ≡ true
    → (happens_before a c ≡ true) × (happens_before c a ≡ false)
happens_before_trans a b c p q =
    let (ab, nab) = (happens_before_iff a b).0 p in
    let (bc, _) = (happens_before_iff b c).0 q in
    let below : Below a c = λ s. le_trans (ab s) (bc s) in
    let apart : ¬ Below c a = λ ca. nab (λ s. between (ab s) (bc s) (ca s)) in
    (
      (happens_before_iff a c).1 (below, λ same. apart (λ s. back (same s))),
      refuted (happens_before c a) (λ h. apart ((happens_before_iff c a).0 h).0),
    )
  where
    between : {l m n : ℕ} → l ≤ m → m ≤ n → n ≤ l → l ≡ m
    between x y z = omega arith

    back : {m n : ℕ} → m ≡ n → n ≤ m
    back e = omega arith

    refuted : (t : Bool) → ¬ (t ≡ true) → t ≡ false
    refuted true n = absurd (n refl)
    refuted false n = refl

-- The relation read from the other side.
abbrev pub swapped : EventOrder → EventOrder
swapped EventOrder.before = EventOrder.after
swapped EventOrder.after = EventOrder.before
swapped EventOrder.concurrent = EventOrder.concurrent
swapped EventOrder.equal = EventOrder.equal

equals_comm : (a b : Clock) → equals a b ≡ equals b a
equals_comm a b = elim (Bool-cases (equals a b)) [
  | inl t ↦ t ∙ sym ((equals_iff b a).1 (λ s. sym ((equals_iff a b).0 t s)))
  | inr f ↦ elim (Bool-cases (equals b a)) [
    | inl t' ↦ t_of ((equals_iff a b).1 (λ s. sym ((equals_iff b a).0 t' s))) f
    | inr f' ↦ f ∙ sym f'
  ]
]
  where
    t_of : equals a b ≡ true → equals a b ≡ false → equals a b ≡ equals b a
    t_of p q = cc

not_both : (a b : Clock) → happens_before a b ≡ true → happens_before b a ≡ false
not_both a b h = elim (Bool-cases (happens_before b a)) [
  | inr f ↦ f
  | inl t ↦ let (p, q) = happens_before_trans a b a h t in cc (p, q)
]

-- Comparing two events the other way round gives the relation read from the other side.
pub compare-swapped : (a b : Clock) → compare b a ≡ swapped (compare a b)
unfolding compare
compare-swapped a b = ground (arith, equals_comm a b, not_both a b, not_both b a)

-- `compare` answers EQUAL exactly if all counters agree, BEFORE exactly if the first event
-- happened before the second, and CONCURRENT exactly if neither clock is below the other.
pub compare_exact :
    (a b : Clock)
    → ((compare a b ≡ EventOrder.equal) ↔ Same a b)
      × ((compare a b ≡ EventOrder.before) ↔ (Below a b × ¬ Same a b))
      × ((compare a b ≡ EventOrder.concurrent) ↔ (¬ Below a b × ¬ Below b a))
compare_exact a b = (
  (λ h. (equals_iff a b).0 (equal_only h), λ same. equal_if ((equals_iff a b).1 same)),
  (
    λ h. (happens_before_iff a b).0 (before_only h),
    λ h. before_if ((happens_before_iff a b).1 h) (different a b h.1),
  ),
  (
    λ h.
        let (ne, nab, nba) = concurrent_only h in
        (
          λ below.
              contra nab
                ((happens_before_iff a b).1 (below, λ same. contra ne ((equals_iff a b).1 same))),
          λ above. contra nba (
              (happens_before_iff b a).1
                (above, λ same. contra ne ((equals_iff a b).1 (λ s. sym (same s))))),
        ),
    λ h.
        concurrent_if (different a b (λ same. h.0 (λ s. below_of (same s))))
          (refuted (happens_before a b) (λ t. h.0 ((happens_before_iff a b).0 t).0))
          (refuted (happens_before b a) (λ t. h.1 ((happens_before_iff b a).0 t).0)),
  ),
)
  where
    below_of : {m n : ℕ} → m ≡ n → m ≤ n
    below_of e = omega arith

    contra : {c : Bool} → c ≡ false → c ≡ true → ⊥
    contra p q = cc

    refuted : (t : Bool) → ¬ (t ≡ true) → t ≡ false
    refuted true n = absurd (n refl)
    refuted false n = refl

    different : (a b : Clock) → ¬ Same a b → equals a b ≡ false
    different a b n = refuted (equals a b) (λ t. n ((equals_iff a b).0 t))

    equal_only : compare a b ≡ EventOrder.equal → equals a b ≡ true
    equal_only h = unfold compare in ground arith

    equal_if : equals a b ≡ true → compare a b ≡ EventOrder.equal
    equal_if h = unfold compare in ground arith

    before_only : compare a b ≡ EventOrder.before → happens_before a b ≡ true
    before_only h = unfold compare in ground arith

    before_if : happens_before a b ≡ true → equals a b ≡ false → compare a b ≡ EventOrder.before
    before_if h k = unfold compare in ground arith

    concurrent_only :
        compare a b ≡ EventOrder.concurrent
        → (equals a b ≡ false) × (happens_before a b ≡ false) × (happens_before b a ≡ false)
    concurrent_only h = unfold compare in ground arith

    concurrent_if :
        equals a b ≡ false
        → happens_before a b ≡ false
        → happens_before b a ≡ false
        → compare a b ≡ EventOrder.concurrent
    concurrent_if h k l = unfold compare in ground arith

-- The test `concurrent` answers True for concurrent clocks, and for equal ones too.
pub is_concurrent_exact :
    (a b : Clock)
    → (is_concurrent a b ≡ true)
      ↔ ((compare a b ≡ EventOrder.concurrent) ⊎ (compare a b ≡ EventOrder.equal))
unfolding is_concurrent compare
is_concurrent_exact a b =
    (λ h. ground arith, λ h. ground (arith, not_equal a b, not_equal b a, equals_comm a b))
  where
    not_equal : (a b : Clock) → equals a b ≡ true → happens_before a b ≡ false
    not_equal a b e = unfold happens_before in ground arith
