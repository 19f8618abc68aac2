-- ===== src/EventLog/Balance.antt =====
-- Balances computed from a log, against sums over its events in no particular order.
use mobile_money_simulator.Prelude.{
  ℕ, ◌+◌, ◌≡◌, refl, sym, ◌∙◌, ap, ap₂, ◌&&◌, inl, inr, Bool, true, false, List, [], ◌∷◌, ◌++◌,
  arith, ltb, leb, if◌then◌else◌, not, Bool-cases, nat_eq, string_eq,
}
use mobile_money_simulator.Prelude.Int.{ℤ, pos, ◌+ℤ◌, ◌-ℤ◌, int_laws}
use mobile_money_simulator.Prelude.Sort.{insert_by}
use mobile_money_simulator.Dict.{Dict, contains, insert_fresh, values}
use mobile_money_simulator.EventLog.{
  EventType, TransactionEvent, EventLog, newer, by_id, get_events_after, apply_event,
  compute_balance, add_deposit, compute_balance_optimized, add_event, store_event, is_duplicate,
}
use mathlib.Core.List.{foldl, Perm, Permᴰ}
use mathlib.Core.Logic.{∥∥₁_elim}

-- What one event adds to a balance.
abbrev pub effect : TransactionEvent → ℤ
effect e = elim e.event_type [
  | EventType.deposit ↦ e.amount
  | EventType.withdraw ↦ pos 0 -ℤ e.amount
]

abbrev pub deposited : TransactionEvent → ℤ
deposited e = elim e.event_type [ EventType.deposit ↦ e.amount | EventType.withdraw ↦ pos 0 ]

abbrev pub withdrawn : TransactionEvent → ℤ
withdrawn e = elim e.event_type [ EventType.deposit ↦ pos 0 | EventType.withdraw ↦ e.amount ]

-- The sum of a measure over a list of events.
abbrev pub total : (TransactionEvent → ℤ) → List TransactionEvent → ℤ
total f [] = pos 0
total f (e ∷ es) = f e +ℤ total f es

-- The sum of a measure over the events of a log that are later than an id.
abbrev pub total_after : (TransactionEvent → ℤ) → ℕ → EventLog → ℤ
total_after f after log = total f (newer after log.events)

total-insert_by :
    (f : TransactionEvent → ℤ) (e : TransactionEvent) (es : List TransactionEvent)
    → total f (insert_by (λ e. e.event_id) e es) ≡ f e +ℤ total f es
total-insert_by f e [] = refl
total-insert_by f e (x ∷ es) = elim (Bool-cases (leb e.event_id x.event_id)) [
  | inl t ↦ rw t refl
  | inr s ↦ rw (s, total-insert_by f e es) (omega int_laws)
]

pub total-by_id :
    (f : TransactionEvent → ℤ) (es : List TransactionEvent) → total f (by_id es) ≡ total f es
total-by_id f [] = refl
total-by_id f (e ∷ es) = rw (total-insert_by f e (by_id es), total-by_id f es)

apply_event-effect : (b : ℤ) (e : TransactionEvent) → apply_event b e ≡ b +ℤ effect e
apply_event-effect b e = elim (e.event_type) as (λ t. step t ≡ b +ℤ of t) [
  | EventType.deposit ↦ refl
  | EventType.withdraw ↦ omega int_laws
]
  where
    step : EventType → ℤ
    step t = elim t [ EventType.deposit ↦ b +ℤ e.amount | EventType.withdraw ↦ b -ℤ e.amount ]

    of : EventType → ℤ
    of t = elim t [ EventType.deposit ↦ e.amount | EventType.withdraw ↦ pos 0 -ℤ e.amount ]

foldl-apply_event :
    (b : ℤ) (es : List TransactionEvent) → foldl apply_event b es ≡ b +ℤ total effect es
foldl-apply_event b [] = omega int_laws
foldl-apply_event b (e ∷ es) =
    rw (foldl-apply_event (apply_event b e) es, apply_event-effect b e) (omega int_laws)

-- The computed balance is the checkpoint's plus the effects of the later events.
pub compute_balance_total :
    (b : ℤ) (k : ℕ) (log : EventLog) → compute_balance b k log ≡ b +ℤ total_after effect k log
unfolding compute_balance get_events_after
compute_balance_total b k log =
    rw (foldl-apply_event b (by_id (newer k log.events)), total-by_id effect (newer k log.events))

effect_parts : (e : TransactionEvent) → effect e +ℤ withdrawn e ≡ deposited e
effect_parts e = elim (e.event_type) as (λ t. plus (of t) (out t) ≡ in_ t) [
  | EventType.deposit ↦ omega int_laws
  | EventType.withdraw ↦ omega int_laws
]
  where
    plus : ℤ → ℤ → ℤ
    plus a b = a +ℤ b

    of : EventType → ℤ
    of t = elim t [ EventType.deposit ↦ e.amount | EventType.withdraw ↦ pos 0 -ℤ e.amount ]

    out : EventType → ℤ
    out t = elim t [ EventType.deposit ↦ pos 0 | EventType.withdraw ↦ e.amount ]

    in_ : EventType → ℤ
    in_ t = elim t [ EventType.deposit ↦ e.amount | EventType.withdraw ↦ pos 0 ]

foldl-add_deposit :
    (acc : ℤ × ℕ) (es : List TransactionEvent)
    → (foldl add_deposit acc es).0 ≡ acc.0 +ℤ total deposited es
foldl-add_deposit acc [] = omega int_laws
foldl-add_deposit acc (e ∷ es) =
    rw (foldl-add_deposit (add_deposit acc e) es) (one (e.event_type) acc.0 (total deposited es))
  where
    plus : ℤ → ℤ → ℤ
    plus a b = a +ℤ b

    one :
        (t : EventType) (a r : ℤ)
        → plus
            ((elim t as (λ _. ℤ × ℕ) [
              | EventType.deposit ↦ (a +ℤ e.amount, acc.1 + 1)
              | EventType.withdraw ↦ (a, acc.1)
            ]).0)
            r
          ≡ plus a (
              plus
                (elim t as (λ _. ℤ) [ EventType.deposit ↦ e.amount | EventType.withdraw ↦ pos 0 ])
                r)
    one EventType.deposit a r = omega int_laws
    one EventType.withdraw a r = omega int_laws

total_parts :
    (es : List TransactionEvent) → total effect es +ℤ total withdrawn es ≡ total deposited es
total_parts [] = omega int_laws
total_parts (e ∷ es) =
    regroup (effect e) (total effect es) (withdrawn e) (total withdrawn es)
    ∙ ap₂ (λ a b. a +ℤ b) (effect_parts e) (total_parts es)
  where
    regroup : (a b c d : ℤ) → (a +ℤ b) +ℤ (c +ℤ d) ≡ (a +ℤ c) +ℤ (b +ℤ d)
    regroup a b c d = omega int_laws

-- The optimised balance is the checkpoint's plus the later deposits, less the last withdrawal.
pub compute_balance_optimized_total :
    (b w : ℤ) (k : ℕ) (log : EventLog)
    → (compute_balance_optimized b k w log).balance ≡ b +ℤ total_after deposited k log -ℤ w
unfolding compute_balance_optimized get_events_after
compute_balance_optimized_total b w k log =
    rw
      (
        foldl-add_deposit (pos 0, 0) (by_id (newer k log.events)),
        total-by_id deposited (newer k log.events),
      )
      (omega int_laws)

-- The optimised balance exceeds the replayed one by the withdrawals after the checkpoint, less
-- the last withdrawal that it subtracts in their place.
pub compute_balance_optimized_gap :
    (b w : ℤ) (k : ℕ) (log : EventLog)
    → (compute_balance_optimized b k w log).balance +ℤ w
      ≡ compute_balance b k log +ℤ total_after withdrawn k log
unfolding compute_balance_optimized get_events_after
compute_balance_optimized_gap b w k log =
    let new = newer k log.events in
    rw
      (
        foldl-add_deposit (pos 0, 0) (by_id new),
        total-by_id deposited new,
        ← total_parts new,
        compute_balance_total b k log,
      )
      (omega int_laws)

-- The events that a checkpoint at id `k` covers.
abbrev pub older : ℕ → Dict ℕ TransactionEvent → List TransactionEvent
older k [] = []
older k ((j, e) ∷ d) = let rest = older k d in if ltb k j then rest else e ∷ rest

total_split :
    (f : TransactionEvent → ℤ) (k : ℕ) (d : Dict ℕ TransactionEvent)
    → total f (older k d) +ℤ total f (newer k d) ≡ total f (values d)
total_split f k [] = omega int_laws
total_split f k ((j, e) ∷ d) = elim (Bool-cases (ltb k j)) [
  | inl t ↦ rw (t, ← total_split f k d) (omega int_laws)
  | inr s ↦ rw (s, ← total_split f k d) (omega int_laws)
]

-- A checkpoint that holds the effects of the events up to its id gives, with the later events
-- replayed, the balance of a replay of the whole log.
pub compute_balance_checkpoint :
    (b : ℤ) (k : ℕ) (log : EventLog)
    → compute_balance (b +ℤ total effect (older k log.events)) k log
      ≡ b +ℤ total effect (values log.events)
compute_balance_checkpoint b k log =
    rw
      (
        compute_balance_total (b +ℤ total effect (older k log.events)) k log,
        ← total_split effect k log.events,
      )
      (omega int_laws)

newer_snoc :
    (k j : ℕ) (e : TransactionEvent) (d : Dict ℕ TransactionEvent)
    → total effect (newer k (d ++ (j, e) ∷ []))
      ≡ (if ltb k j then total effect (newer k d) +ℤ effect e else total effect (newer k d))
newer_snoc k j e [] = elim (Bool-cases (ltb k j)) [
  | inl t ↦ rw t (omega int_laws)
  | inr s ↦ rw s refl
]
newer_snoc k j e ((i, f) ∷ d) = elim (Bool-cases (ltb k i)) [
  | inl t ↦ rw (t, newer_snoc k j e d) (move (ltb k j) (effect f) (total effect (newer k d)))
  | inr s ↦ rw s (newer_snoc k j e d)
]
  where
    move :
        (c : Bool) (a r : ℤ)
        → a +ℤ (if c then r +ℤ effect e else r) ≡ (if c then (a +ℤ r) +ℤ effect e else a +ℤ r)
    move true a r = omega int_laws
    move false a r = refl

absent :
    (e : TransactionEvent) (log : EventLog)
    → is_duplicate e log ≡ false
    → contains e.event_id log.events ≡ false
unfolding is_duplicate
absent e log h = ground arith

total_after-store_event :
    (k : ℕ) (e : TransactionEvent) (log : EventLog)
    → is_duplicate e log ≡ false
    → total_after effect k (store_event e log) ≡ (
        if ltb k e.event_id then total_after effect k log +ℤ effect e else total_after effect k log)
unfolding store_event
total_after-store_event k e log fresh =
    rw (insert_fresh e.event_id e log.events (absent e log fresh))
      (newer_snoc k e.event_id e log.events)

-- An event that goes into the log changes the balance by its effect if it is later than the
-- checkpoint, and a refused one does not change it.
pub compute_balance-add_event :
    (b : ℤ) (k : ℕ) (e : TransactionEvent) (log : EventLog)
    → compute_balance b k (add_event e log).0 ≡ (
        if not (is_duplicate e log) && ltb k e.event_id
        then compute_balance b k log +ℤ effect e
        else compute_balance b k log)
unfolding add_event
compute_balance-add_event b k e log = elim (Bool-cases (is_duplicate e log)) [
  | inl dup ↦ rw dup refl
  | inr fresh ↦
      rw
        (
          fresh,
          compute_balance_total b k (store_event e log),
          compute_balance_total b k log,
          total_after-store_event k e log fresh,
        )
        (move (ltb k e.event_id) (total_after effect k log))
]
  where
    move :
        (c : Bool) (r : ℤ)
        → b +ℤ (if c then r +ℤ effect e else r) ≡ (if c then (b +ℤ r) +ℤ effect e else b +ℤ r)
    move true r = omega int_laws
    move false r = refl

ℤ_set : IsSet ℤ
ℤ_set = hlevel

-- What an entry contributes to the sum over the events after `k`.
abbrev share : (TransactionEvent → ℤ) → ℕ → ℕ × TransactionEvent → ℤ
share f k (j, e) = if ltb k j then f e else pos 0

newer-cons :
    (f : TransactionEvent → ℤ) (k : ℕ) (x : ℕ × TransactionEvent) (d : Dict ℕ TransactionEvent)
    → total f (newer k (x ∷ d)) ≡ share f k x +ℤ total f (newer k d)
newer-cons f k (j, e) d = elim (Bool-cases (ltb k j)) [
  | inl t ↦ rw t refl
  | inr s ↦ rw s (omega int_laws)
]

newer-perm :
    (f : TransactionEvent → ℤ) (k : ℕ) {d d' : Dict ℕ TransactionEvent}
    → Permᴰ d d'
    → total f (newer k d) ≡ total f (newer k d')
newer-perm f k Permᴰ.nil = refl
newer-perm f k (Permᴰ.cons {a = x} {b = y} {l₁ = r} {l₂ = s} e p) =
    newer-cons f k x r
    ∙ ap₂ (λ u v. share f k u +ℤ v) e (newer-perm f k p)
    ∙ sym (newer-cons f k y s)
newer-perm f k (Permᴰ.swap {a = x} {b = y} {a' = y'} {b' = x'} {l = l} e e') =
    newer-cons f k x (y ∷ l)
    ∙ ap (λ t. share f k x +ℤ t) (newer-cons f k y l)
    ∙ swap (share f k x) (share f k y) (total f (newer k l))
    ∙ ap₂ (λ u v. share f k u +ℤ (share f k v +ℤ total f (newer k l))) e' e
    ∙ ap (λ t. share f k y' +ℤ t) (sym (newer-cons f k x' l))
    ∙ sym (newer-cons f k y' (x' ∷ l))
  where
    swap : (a b c : ℤ) → a +ℤ (b +ℤ c) ≡ b +ℤ (a +ℤ c)
    swap a b c = omega int_laws
newer-perm f k (Permᴰ.trans p q) = newer-perm f k p ∙ newer-perm f k q

-- Two logs that hold the same events, in whatever order they arrived, give one balance.
pub compute_balance_converges :
    (b : ℤ) (k : ℕ) (log log' : EventLog)
    → Perm log.events log'.events
    → compute_balance b k log ≡ compute_balance b k log'
compute_balance_converges b k log log' p =
    compute_balance_total b k log
    ∙ ap (λ t. b +ℤ t) (∥∥₁_elim p (ℤ_set _ _) (newer-perm effect k))
    ∙ sym (compute_balance_total b k log')
