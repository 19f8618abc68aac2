-- ===== src/VectorClock/Tests.antt =====
-- Inputs that meet the hypotheses of the theorems about vector clocks.
use mobile_money_simulator.Prelude.{◌≡◌, refl, true, [], ◌∷◌, string_eq}
use mobile_money_simulator.VectorClock.{
  Clock, EventOrder, increment, update, le_other, equals, happens_before, compare,
}
use mobile_money_simulator.VectorClock.Causality.{receive_happens_before}

abbrev first : Clock
first = ("s1", 1) ∷ ("s2", 0) ∷ []

abbrev second : Clock
second = ("s1", 2) ∷ ("s2", 1) ∷ []

abbrev third : Clock
third = ("s1", 2) ∷ ("s2", 1) ∷ ("s3", 4) ∷ []

abbrev apart : Clock
apart = ("s2", 5) ∷ []

orders :
    (compare first second ≡ EventOrder.before)
    × (compare first apart ≡ EventOrder.concurrent)
    × (compare first (("s1", 1) ∷ []) ≡ EventOrder.equal)
unfolding compare equals happens_before le_other
orders = (refl, refl, refl)

receive_happens_before_example :
    let local' = increment "s2" (update first apart) in
    (happens_before apart local' ≡ true) × (happens_before first local' ≡ true)
receive_happens_before_example = receive_happens_before "s2" first apart (refl, (refl, tt))
