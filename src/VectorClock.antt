-- ===== src/VectorClock.antt =====
-- src/distributed/vector_clock.py: vector clocks as dicts from server ids to counters.
-- A union of key sets is the two key lists joined: `all` over it does not depend on order or
-- repetition. The two texts of `detect_concurrent_operations` follow from its flag and are left out.
pub mod Order
pub mod Causality
mod Tests
use mobile_money_simulator.Prelude.{
  ℕ, ◌+◌, String, Bool, true, false, not, ◌&&◌, List, [], ◌∷◌, ◌++◌, Option, none, some, leb,
  nat_beq, if◌then◌else◌, ◌==◌, nat_eq, string_eq,
}
use mobile_money_simulator.Dict.{Dict, lookup, contains, insert, keys}
use Prim.Native.Nat.{max}

pub data EventOrder : Type 0 where
  before after concurrent equal : EventOrder

abbrev pub Clock : Type 0
Clock = Dict String ℕ

-- self.clock.get(sid, 0)
abbrev pub at : Clock → String → ℕ
at c sid = elim (lookup sid c) [ none ↦ 0 | some n ↦ n ]

abbrev zeros : List String → Clock
zeros [] = []
zeros (sid ∷ rest) = insert sid 0 (zeros rest)

-- `VectorClock(server_ids, clock)`: an empty list or dict is false in Python.
unfoldable pub new_clock : List String → Clock → Clock
new_clock server_ids (entry ∷ clock) = entry ∷ clock
new_clock server_ids [] = zeros server_ids

unfoldable pub increment : String → Clock → Clock
increment server_id c =
    let c' = if contains server_id c then c else insert server_id 0 c in
    insert server_id (at c' server_id + 1) c'

unfoldable pub update : Clock → Clock → Clock
update [] c = c
update ((server_id, remote_version) ∷ rest) c =
    update rest (insert server_id (max (at c server_id) remote_version) c)

-- all(p(sid) for sid in sids)
abbrev pub all_of : (String → Bool) → List String → Bool
all_of p [] = true
all_of p (sid ∷ rest) = p sid && all_of p rest

abbrev pub all_servers : Clock → Clock → List String
all_servers a b = keys a ++ keys b

-- self ≤ other
unfoldable pub le_other : Clock → Clock → Bool
le_other a b = all_of (λ sid. leb (at a sid) (at b sid)) (all_servers a b)

unfoldable pub equals : Clock → Clock → Bool
equals a b = all_of (λ sid. nat_beq (at a sid) (at b sid)) (all_servers a b)

unfoldable pub happens_before : Clock → Clock → Bool
happens_before a b = le_other a b && not (equals a b)

unfoldable pub is_concurrent : Clock → Clock → Bool
is_concurrent a b = not (happens_before a b) && not (happens_before b a)

unfoldable pub compare : Clock → Clock → EventOrder
compare a b =
    if equals a b
    then EventOrder.equal
    else if happens_before a b
    then EventOrder.before
    else if happens_before b a
    then EventOrder.after
    else EventOrder.concurrent

unfoldable pub detect_concurrent_operations : Clock → Clock → ℕ → ℕ → Bool
detect_concurrent_operations event1_clock event2_clock event1_account_id event2_account_id =
    if nat_beq event1_account_id event2_account_id
    then is_concurrent (new_clock [] event1_clock) (new_clock [] event2_clock)
    else false
