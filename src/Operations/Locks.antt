-- ===== src/Operations/Locks.antt =====
-- `acquire_lock` and `release_lock`: who holds the lock of an account, and for how long.
use mobile_money_simulator.Prelude.{
  ℕ, ◌+◌, ◌*◌, String, ◌≡◌, refl, ap, inl, inr, Bool, true, false, not, ◌||◌, List, [], ◌∷◌, ◌++◌,
  none, some, ltb, leb, nat_beq, arith, ◌==◌, keep_if, Bool-cases, beq_refl, nat_eq, string_eq,
  length,
}
use mobile_money_simulator.Database.{AccountLock, Database}
use mobile_money_simulator.Operations.{
  Context, LockReply, live_lock, has_lock, new_lock, is_expired_of, is_held_by, acquire_lock,
  release_lock,
}

abbrev pub swept : ℕ → ℕ → List AccountLock → List AccountLock
swept now k locks = keep_if (λ l. not (is_expired_of now k l)) locks

-- Once the expired locks are gone, an account without a live lock has none.
has_lock-swept :
    (now k : ℕ) (locks : List AccountLock)
    → live_lock now k locks ≡ none
    → has_lock k (swept now k locks) ≡ false
has_lock-swept now k [] h = refl
has_lock-swept now k (l ∷ ls) h = elim (Bool-cases (nat_beq l.account_id k)) [
  | inl mine ↦ elim (Bool-cases (ltb now l.expires_at)) [
    | inl live ↦ absurd (taken l (rw (← h, mine, live) refl))
    | inr expired ↦
        rw (mine, past now l.expires_at expired)
          (has_lock-swept now k ls (rw (← h, mine, expired) refl))
  ]
  | inr theirs ↦ rw theirs (rw theirs (has_lock-swept now k ls (rw (← h, theirs) refl)))
]
  where
    taken : (l : AccountLock) → some l ≡ none → ⊥
    taken l e = cc

    past : (now t : ℕ) → ltb now t ≡ false → leb t now ≡ true
    past now t h = ground arith

pub live_lock-snoc :
    (now k : ℕ) (lock : AccountLock) (locks : List AccountLock)
    → has_lock k locks ≡ false
    → nat_beq lock.account_id k ≡ true
    → ltb now lock.expires_at ≡ true
    → live_lock now k (locks ++ lock ∷ []) ≡ some lock
live_lock-snoc now k lock [] f mine live = rw (mine, live) refl
live_lock-snoc now k lock (l ∷ ls) f mine live =
    let (other, rest) = parts (nat_beq l.account_id k) (has_lock k ls) f in
    rw other (live_lock-snoc now k lock ls rest mine live)
  where
    parts : (a b : Bool) → (a || b) ≡ false → (a ≡ false) × (b ≡ false)
    parts false b h = (refl, h)
    parts true b h = cc

pub acquired :
    (c : Context) (k timeout : ℕ) (r : String) (db : Database)
    → live_lock c.now k db.locks ≡ none
    → (acquire_lock c k r timeout db ≡ (
      record db { locks = swept c.now k db.locks ++ new_lock c k r timeout ∷ [] },
      (true, LockReply.lock_acquired),
    ))
      × (has_lock k (swept c.now k db.locks) ≡ false)
unfolding acquire_lock
acquired c k timeout r db free =
    let none_left = has_lock-swept c.now k db.locks free in
    (rw (free, acquire_lock) (rw none_left refl), none_left)

pub blocked :
    (c : Context) (k timeout : ℕ) (r : String) (l : AccountLock) (db : Database)
    → live_lock c.now k db.locks ≡ some l
    → acquire_lock c k r timeout db ≡ (db, (false, LockReply.locked_by l.lock_holder_server))
unfolding acquire_lock
blocked c k timeout r l db held = rw (held, acquire_lock) refl

pub live_lock-release :
    (now k : ℕ) (r : String) (l : AccountLock) (locks : List AccountLock)
    → live_lock now k locks ≡ some l
    → (l.request_id == r) ≡ false
    → live_lock now k (keep_if (λ x. not (is_held_by k r x)) locks) ≡ some l
live_lock-release now k r l [] h other = cc
live_lock-release now k r l (x ∷ xs) h other = elim (Bool-cases (nat_beq x.account_id k)) [
  | inr theirs ↦
      rw theirs (rw theirs (live_lock-release now k r l xs (rw (← h, theirs) refl) other))
  | inl mine ↦ elim (Bool-cases (ltb now x.expires_at)) [
    | inl live ↦
        let same : x ≡ l = some_inj (rw (← h, mine, live) refl) in
        let kept : (x.request_id == r) ≡ false = rw same other in
        rw (mine, kept) (rw (mine, live) (ap some same))
    | inr expired ↦
        let rest = live_lock-release now k r l xs (rw (← h, mine, expired) refl) other in
        elim (Bool-cases (x.request_id == r)) [
          | inl gone ↦ rw (mine, gone) rest
          | inr kept ↦ rw (mine, kept) (rw (mine, expired) rest)
        ]
  ]
]
  where
    some_inj : {x y : AccountLock} → some x ≡ some y → x ≡ y
    some_inj e = cc

live_lock-freed :
    (now k : ℕ) (r : String) (lock : AccountLock) (locks : List AccountLock)
    → has_lock k locks ≡ false
    → is_held_by k r lock ≡ true
    → (live_lock now k (keep_if (λ x. not (is_held_by k r x)) (locks ++ lock ∷ [])) ≡ none)
      × (ltb 0 (length (keep_if (is_held_by k r) (locks ++ lock ∷ []))) ≡ true)
live_lock-freed now k r lock [] f held = rw held (refl, refl)
live_lock-freed now k r lock (l ∷ ls) f held =
    let (other, rest) = parts (nat_beq l.account_id k) (has_lock k ls) f in
    rw other (rw other (live_lock-freed now k r lock ls rest held))
  where
    parts : (a b : Bool) → (a || b) ≡ false → (a ≡ false) × (b ≡ false)
    parts false b h = (refl, h)
    parts true b h = cc

-- The holder of a lock that was acquired can release it, and the account is then free at once. A
-- release under another request id leaves the lock in force.
pub release_lock_frees :
    (c : Context) (k timeout now : ℕ) (r r' : String) (db : Database)
    → live_lock c.now k db.locks ≡ none
    → (r == r') ≡ false
    → let db' = (acquire_lock c k r timeout db).0 in
      ((release_lock k r db').1 ≡ true)
      × (live_lock now k (release_lock k r db').0.locks ≡ none)
      × (ltb now (c.now + timeout * 1000000) ≡ true
          → live_lock now k (release_lock k r' db').0.locks ≡ some (new_lock c k r timeout))
unfolding release_lock
release_lock_frees c k timeout now r r' db free other =
    let lock = new_lock c k r timeout in
    let (result, none_left) = acquired c k timeout r db free in
    let (freed, counted) =
      live_lock-freed now k r lock (swept c.now k db.locks) none_left
        (ground (arith, beq_refl k, beq_refl r)) in
    rw result (
      counted,
      freed,
      λ early.
          live_lock-release now k r' lock (swept c.now k db.locks ++ lock ∷ [])
            (live_lock-snoc now k lock (swept c.now k db.locks) none_left (beq_refl k) early) other,
    )
