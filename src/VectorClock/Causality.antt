-- ===== src/VectorClock/Causality.antt =====
-- How events move a clock: a step of a server, and the receipt of another server's clock.
use mobile_money_simulator.Prelude.{
  ℕ, ◌+◌, ◌≤◌, String, ◌≡◌, refl, ◌∙◌, ◌↔◌, inl, inr, Bool, true, false, [], ◌∷◌, arith,
  if◌then◌else◌, ◌==◌, Bool-cases, beq_eq, beq_refl, nat_eq, string_eq, ◌⊎◌,
}
use mobile_money_simulator.Dict.{contains, insert, IsNodup, lookup-insert, contains-lookup}
use mobile_money_simulator.VectorClock.{
  Clock, EventOrder, at, increment, update, happens_before, is_concurrent, compare, new_clock,
  detect_concurrent_operations,
}
use mobile_money_simulator.VectorClock.Order.{happens_before_iff, is_concurrent_exact}
use Prim.Native.Nat.{max}

at-insert :
    (k s : String) (n : ℕ) (c : Clock) → at (insert k n c) s ≡ (if k == s then n else at c s)
at-insert k s n c = ground (arith, lookup-insert k s n c)

-- A server's step raises its own counter by one and no other.
pub at-increment :
    (k s : String) (c : Clock) → at (increment k c) s ≡ (if k == s then at c s + 1 else at c s)
unfolding increment
at-increment k s c = elim (Bool-cases (contains k c)) [
  | inl known ↦ rw known (stepped c)
  | inr new ↦ rw new (
      at-insert k s (at (insert k 0 c) k + 1) (insert k 0 c)
      ∙ ground (
        arith,
        at-insert k k 0 c,
        at-insert k s 0 c,
        contains-lookup k c new,
        beq_refl k,
        beq_eq k s,
      ))
]
  where
    stepped : (c : Clock) → at (insert k (at c k + 1) c) s ≡ (if k == s then at c s + 1 else at c s)
    stepped c = at-insert k s (at c k + 1) c ∙ ground (arith, beq_eq k s)

-- Receiving a clock takes the larger of the two counters for every server.
pub at-update : (r c : Clock) (s : String) → IsNodup r → at (update r c) s ≡ max (at c s) (at r s)
unfolding update
at-update [] c s h = omega arith
at-update ((k, n) ∷ r) c s h = at-update r (insert k (max (at c k) n) c) s h.1 ∙ merged
  where
    new : k ≡ s → at r s ≡ 0
    new e = rw (← e) (ground (arith, contains-lookup k r h.0))

    at-cons : at ((k, n) ∷ r) s ≡ (if k == s then n else at r s)
    at-cons = ground arith

    merged : max (at (insert k (max (at c k) n) c) s) (at r s) ≡ max (at c s) (at ((k, n) ∷ r) s)
    merged = elim (Bool-cases (k == s)) [
      | inl same ↦
          rw (at-insert k s (max (at c k) n) c, at-cons, same)
            (rw (new (beq_eq k s same), beq_eq k s same) (omega arith))
      | inr other ↦ rw (at-insert k s (max (at c k) n) c, at-cons, other) refl
    ]

-- A server that receives another's clock and then takes a step has seen both: the received clock
-- and its own old clock happened before its new one.
pub receive_happens_before :
    (k : String) (remote local : Clock)
    → IsNodup remote
    → let local' = increment k (update remote local) in
      (happens_before local local' ≡ true) × (happens_before remote local' ≡ true)
receive_happens_before k remote local h =
    let seen : (s : String)
        → at (increment k (update remote local)) s ≡ (
            if k == s then max (at local s) (at remote s) + 1 else max (at local s) (at remote s)) =
      λ s. at-increment k s (update remote local) ∙ rw (at-update remote local s h) refl in
    (
      (happens_before_iff local (increment k (update remote local))).1 (
        λ s.
            first (k == s) (at local s) (at remote s) (at (increment k (update remote local)) s)
              (seen s),
        λ same.
            strict (at local k) (at remote k) (at (increment k (update remote local)) k)
              (seen k ∙ rw (beq_refl k) refl) (inl (same k)),
      ),
      (happens_before_iff remote (increment k (update remote local))).1 (
        λ s.
            second (k == s) (at local s) (at remote s) (at (increment k (update remote local)) s)
              (seen s),
        λ same.
            strict (at local k) (at remote k) (at (increment k (update remote local)) k)
              (seen k ∙ rw (beq_refl k) refl) (inr (same k)),
      ),
    )
  where
    first : (b : Bool) (l r v : ℕ) → v ≡ (if b then max l r + 1 else max l r) → l ≤ v
    first true l r v e = omega arith
    first false l r v e = omega arith

    second : (b : Bool) (l r v : ℕ) → v ≡ (if b then max l r + 1 else max l r) → r ≤ v
    second true l r v e = omega arith
    second false l r v e = omega arith

    strict : (l r v : ℕ) → v ≡ max l r + 1 → (l ≡ v) ⊎ (r ≡ v) → ⊥
    strict l r v e same = omega arith

-- Two events on one account are reported as a conflict exactly if their clocks are concurrent or
-- equal; events on different accounts never are.
pub detect_concurrent_operations_exact :
    (c d : Clock) (a b : ℕ)
    → (detect_concurrent_operations c d a b ≡ true)
      ↔ ((a ≡ b) × ((compare c d ≡ EventOrder.concurrent) ⊎ (compare c d ≡ EventOrder.equal)))
detect_concurrent_operations_exact c d a b = (
  λ h. let (same, conc) = parts h in (same, (is_concurrent_exact c d).0 conc),
  λ h. whole h.0 ((is_concurrent_exact c d).1 h.1),
)
  where
    copied : (c : Clock) → new_clock [] c ≡ c
    copied [] = unfold new_clock in refl
    copied (entry ∷ c) = unfold new_clock in refl

    parts : detect_concurrent_operations c d a b ≡ true → (a ≡ b) × (is_concurrent c d ≡ true)
    parts h = unfold detect_concurrent_operations in ground (arith, copied c, copied d)

    whole : a ≡ b → is_concurrent c d ≡ true → detect_concurrent_operations c d a b ≡ true
    whole e h = unfold detect_concurrent_operations in ground (arith, copied c, copied d)
