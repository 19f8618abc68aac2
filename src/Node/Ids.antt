-- ===== src/Node/Ids.antt =====
-- Event ids: when they ascend, when they differ between nodes, and when they repeat.
use mobile_money_simulator.Prelude.{
  ℕ, zero, suc, ◌+◌, ◌*◌, ◌%◌, ◌≤◌, ◌<◌, ◌≡◌, refl, sym, ◌∙◌, ap, ap₂, beq_refl, nat_eq, ◌≢◌, inl,
  inr, true, false, arith, nat_beq, Bool-cases,
}
use mobile_money_simulator.Node.{EventIdGenerator, compose_id, next_id}

-- The id that a generator gave last.
abbrev pub last_id : EventIdGenerator → ℕ
last_id g = compose_id g.last_timestamp_ms g.node_hash g.counter

-- While the clock does not go back and fewer than 256 ids were given in its millisecond, the next
-- id is above the last one, and the generator remembers it as its last.
pub next_id_ascends :
    (now : ℕ) (g : EventIdGenerator)
    → g.last_timestamp_ms ≤ now
    → g.node_hash < 256
    → g.counter < 255
    → let (g', event_id) = next_id now g in
      (last_id g < event_id) × (last_id g' ≡ event_id) × (g'.node_hash ≡ g.node_hash)
unfolding next_id
next_id_ascends now g forward byte room = elim (Bool-cases (nat_beq now g.last_timestamp_ms)) [
  | inl same ↦ rw same (
    same_ms now g.last_timestamp_ms g.node_hash g.counter same room,
    moved now g.last_timestamp_ms same,
    refl,
  )
  | inr later ↦
      rw later
        (later_ms now g.last_timestamp_ms g.node_hash g.counter later forward byte, refl, refl)
]
  where
    same_ms :
        (t l h c : ℕ) → nat_beq t l ≡ true → c < 255 → compose_id l h c < compose_id t h (c + 1)
    same_ms t l h c e k = ground arith

    moved :
        (t l : ℕ)
        → nat_beq t l ≡ true
        → compose_id l g.node_hash (g.counter + 1) ≡ compose_id t g.node_hash (g.counter + 1)
    moved t l e = ground arith

    later_ms :
        (t l h c : ℕ) → nat_beq t l ≡ false → l ≤ t → h < 256 → compose_id l h c < compose_id t h 0
    later_ms t l h c e f b = ground arith

-- Two nodes whose bytes differ never give the same id.
pub next_id_distinct :
    (now later : ℕ) (g g' : EventIdGenerator)
    → g.node_hash < 256
    → g'.node_hash < 256
    → g.node_hash ≢ g'.node_hash
    → (next_id now g).1 ≢ (next_id later g').1
unfolding next_id
next_id_distinct now later g g' b b' ne e = apart now later g.node_hash g'.node_hash _ _ b b' ne e
  where
    apart : (t u h k c d : ℕ) → h < 256 → k < 256 → h ≢ k → compose_id t h c ≡ compose_id u k d → ⊥
    apart t u h k c d b b' ne e = omega arith

-- `k` further ids in one millisecond.
abbrev pub after_ids : ℕ → ℕ → EventIdGenerator → EventIdGenerator
after_ids zero now g = g
after_ids (suc k) now g = after_ids k now (next_id now g).0

after_ids_counter :
    (k : ℕ) (g : EventIdGenerator)
    → let g' = after_ids k g.last_timestamp_ms g in
      (g'.counter ≡ g.counter + k)
      × (g'.last_timestamp_ms ≡ g.last_timestamp_ms)
      × (g'.node_hash ≡ g.node_hash)
unfolding next_id
after_ids_counter zero g = (omega arith, refl, refl)
after_ids_counter (suc k) g =
    ground (arith, after_ids_counter k (record g { counter = g.counter + 1 }))

next_id_same_ms :
    (now : ℕ) (g : EventIdGenerator)
    → g.last_timestamp_ms ≡ now
    → (next_id now g).1 ≡ compose_id now g.node_hash (g.counter + 1)
unfolding next_id
next_id_same_ms now g same = ground (arith, beq_refl now)

wraps : (c : ℕ) → (c + 256 + 1) % 256 ≡ (c + 1) % 256
wraps c = omega arith

-- After 256 ids in one millisecond the same id is given again.
pub next_id_repeats :
    (g : EventIdGenerator)
    → (next_id g.last_timestamp_ms (after_ids 256 g.last_timestamp_ms g)).1
      ≡ (next_id g.last_timestamp_ms g).1
next_id_repeats g =
    let (counter, time, byte) = after_ids_counter 256 g in
    let t = g.last_timestamp_ms in
    next_id_same_ms t (after_ids 256 t g) time
    ∙ ap₂ (λ h c. compose_id t h c) byte (ap (λ c. c + 1) counter)
    ∙ ap (λ c. t * 65536 + g.node_hash * 256 + c) (wraps g.counter)
    ∙ sym (next_id_same_ms t g refl)
