-- ===== src/Conflicts/Order.antt =====
-- Whether the choice between two events depends on the order in which they are given.
use mobile_money_simulator.Prelude.{
  ℕ, ◌≡◌, refl, inl, inr, Bool, true, false, not, ◌&&◌, arith, ltb, if◌then◌else◌, nat_beq,
  Bool-cases,
}
use mobile_money_simulator.Events.{Event, EventType}
use mobile_money_simulator.Conflicts.{
  Strategy, is_out, is_in, priority, last_write_wins, compensation, operation_type, resolve,
}

last_write_wins_comm :
    (a b : Event)
    → nat_beq a.timestamp b.timestamp ≡ false
    → last_write_wins a b ≡ last_write_wins b a
unfolding last_write_wins
last_write_wins_comm a b apart = elim (Bool-cases (ltb b.timestamp a.timestamp)) [
  | inl later ↦
      let behind : ltb a.timestamp b.timestamp ≡ false = ground arith in rw (later, behind) refl
  | inr earlier ↦
      let ahead : ltb a.timestamp b.timestamp ≡ true = ground arith in rw (earlier, ahead) refl
]

-- Whether both events are debits of transfers.
abbrev pub both_out : Event → Event → Bool
both_out a b = is_out a.event_type && is_out b.event_type

-- For events with different times, the winner does not depend on which one is given first, under
-- every strategy; with compensation the events are not both debits of transfers.
pub resolve_comm :
    (s : Strategy) (a b : Event)
    → nat_beq a.timestamp b.timestamp ≡ false
    → (s ≡ Strategy.by_compensation → both_out a b ≡ false)
    → resolve s a b ≡ resolve s b a
unfolding resolve compensation operation_type
resolve_comm Strategy.last_write a b apart single = last_write_wins_comm a b apart
resolve_comm Strategy.by_operation_type a b apart single =
    by_priority (priority a.event_type) (priority b.event_type) (last_write_wins_comm a b apart)
  where
    by_priority :
        (p q : ℕ)
        → last_write_wins a b ≡ last_write_wins b a
        → (if ltb q p then a else if ltb p q then b else last_write_wins a b)
          ≡ (if ltb p q then b else if ltb q p then a else last_write_wins b a)
    by_priority p q e = ground (arith, e)
resolve_comm Strategy.by_compensation a b apart single =
    by_parts (is_out a.event_type) (is_in a.event_type) (is_out b.event_type) (is_in b.event_type)
      (single refl) (last_write_wins_comm a b apart)
  where
    by_parts :
        (ao ai bo bi : Bool)
        → (ao && bo) ≡ false
        → last_write_wins a b ≡ last_write_wins b a
        → (if ao && not bi then b else if bo && not ai then a else last_write_wins a b)
          ≡ (if bo && not ai then a else if ao && not bi then b else last_write_wins b a)
    by_parts ao ai bo bi h e = ground (arith, e)

-- With compensation, of two debits of transfers the one that is given second is kept.
pub compensation_both_out :
    (a b : Event)
    → both_out a b ≡ true
    → (resolve Strategy.by_compensation a b ≡ b) × (resolve Strategy.by_compensation b a ≡ a)
unfolding resolve compensation
compensation_both_out a b h =
    let (oa, ob) = parts (is_out a.event_type) (is_out b.event_type) h in
    (
      by_types a b (is_out a.event_type) (is_in b.event_type) _ oa (not_in b.event_type ob),
      by_types b a (is_out b.event_type) (is_in a.event_type) _ ob (not_in a.event_type oa),
    )
  where
    parts : (x y : Bool) → (x && y) ≡ true → (x ≡ true) × (y ≡ true)
    parts true y h = (refl, h)
    parts false y h = cc

    not_in : (t : EventType) → is_out t ≡ true → is_in t ≡ false
    not_in EventType.transfer_out h = refl
    not_in EventType.transfer_in h = cc
    not_in EventType.withdraw h = cc
    not_in EventType.deposit h = cc
    not_in EventType.account_created h = cc

    by_types :
        (x y : Event) (o i : Bool) (z : Event)
        → o ≡ true
        → i ≡ false
        → (if o && not i then y else z) ≡ y
    by_types x y o i z e f = rw (e, f) refl
