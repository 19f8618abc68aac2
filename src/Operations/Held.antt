-- ===== src/Operations/Held.antt =====
-- A lock that has been acquired stays in force over runs of calls, until it is released or expires.
use mobile_money_simulator.Prelude.{
  ℕ, ◌+◌, ◌*◌, String, ◌≡◌, ◌⊎◌, refl, ap, ◌∙◌, inl, inr, Option, Bool, true, false, not, ◌&&◌,
  List, [], ◌∷◌, ◌++◌, none, some, ltb, nat_beq, arith, ◌==◌, keep_if, Bool-cases, Option-cases,
  beq_refl, nat_eq, string_eq,
}
use mobile_money_simulator.Database.{AccountLock, Database}
use mobile_money_simulator.Operations.{
  Context, LockReply, live_lock, new_lock, is_expired_of, is_held_by, acquire_lock, release_lock,
}
use mobile_money_simulator.Operations.Locks.{
  swept, acquired, blocked, live_lock-snoc, live_lock-release,
}

-- What may happen while the request `r` holds the lock of the account `k` until `deadline`: before
-- that time anyone asks for a lock of any account, anyone but `r` releases a lock of `k`, a lock of
-- another account is released, or a call leaves the locks.
pub data Step (k : ℕ) (r : String) (deadline : ℕ) (db : Database) : Database → Type 0 where
  asked :
      (c : Context) (j timeout : ℕ) (q : String)
      → ltb c.now deadline ≡ true
      → Step k r deadline db (acquire_lock c j q timeout db).0
  released :
      (j : ℕ) (q : String)
      → (nat_beq j k && r == q) ≡ false
      → Step k r deadline db (release_lock j q db).0
  elsewhere : {db' : Database} → db'.locks ≡ db.locks → Step k r deadline db db'

pub data Run (k : ℕ) (r : String) (deadline : ℕ) (db : Database) : Database → Type 0 where
  here : Run k r deadline db db
  next : {u v : Database} → Run k r deadline db u → Step k r deadline u v → Run k r deadline db v

-- The lock is the live one of its account until it expires.
abbrev pub IsHeld : ℕ → AccountLock → Database → Type 0
IsHeld k lock db = (now : ℕ) → ltb now lock.expires_at ≡ true → live_lock now k db.locks ≡ some lock

-- Locks of other accounts do not matter.
live_lock-keep_if :
    (now k : ℕ) (f : AccountLock → Bool) (ls : List AccountLock)
    → ((l : AccountLock) → nat_beq l.account_id k ≡ true → f l ≡ true)
    → live_lock now k (keep_if f ls) ≡ live_lock now k ls
live_lock-keep_if now k f [] keeps = refl
live_lock-keep_if now k f (l ∷ ls) keeps =
    let rest = live_lock-keep_if now k f ls keeps in
    elim (Bool-cases (nat_beq l.account_id k)) [
      | inl mine ↦
          let kept = keeps l mine in
          elim (Bool-cases (ltb now l.expires_at)) [
            | inl live ↦ rw kept (rw (mine, live) refl)
            | inr expired ↦ rw kept (rw (mine, expired) rest)
          ]
      | inr theirs ↦ elim (Bool-cases (f l)) [
        | inl kept ↦ rw kept (rw theirs rest)
        | inr gone ↦ rw (gone, theirs) rest
      ]
    ]

live_lock-other :
    (now k : ℕ) (lock : AccountLock) (ls : List AccountLock)
    → nat_beq lock.account_id k ≡ false
    → live_lock now k (ls ++ lock ∷ []) ≡ live_lock now k ls
live_lock-other now k lock [] other = rw other refl
live_lock-other now k lock (l ∷ ls) other =
    let rest = live_lock-other now k lock ls other in rw rest refl

-- An account is not two accounts.
apart : (a j k : ℕ) → nat_beq j k ≡ false → nat_beq a k ≡ true → nat_beq a j ≡ false
apart a j k other mine = ground arith

acquire_lock-IsHeld :
    (c : Context) (j k timeout : ℕ) (q : String) (lock : AccountLock) (db : Database)
    → ltb c.now lock.expires_at ≡ true
    → IsHeld k lock db
    → IsHeld k lock (acquire_lock c j q timeout db).0
acquire_lock-IsHeld c j k timeout q lock db early held =
    elim (Option-cases (live_lock c.now j db.locks)) [
      | inr (l, taken) ↦ rw (blocked c j timeout q l db taken) held
      | inl free ↦ elim (Bool-cases (nat_beq j k)) [
        | inl same ↦ absurd (clash (free_of j k same free) (held c.now early))
        | inr other ↦ rw (acquired c j timeout q db free).0 (λ now soon.
            live_lock-other now k (new_lock c j q timeout) (swept c.now j db.locks) other
            ∙ live_lock-keep_if now k (λ l. not (is_expired_of c.now j l)) db.locks
                (λ l mine. unexpired l (apart l.account_id j k other mine))
            ∙ held now soon)
      ]
    ]
  where
    free_of :
        (j k : ℕ)
        → nat_beq j k ≡ true
        → live_lock c.now j db.locks ≡ none
        → live_lock c.now k db.locks ≡ none
    free_of j k same free = let e : j ≡ k = ground arith in rw (← e) free

    clash : {o : Option AccountLock} → o ≡ none → o ≡ some lock → ⊥
    clash e h = cc

    unexpired :
        (l : AccountLock) → nat_beq l.account_id j ≡ false → not (is_expired_of c.now j l) ≡ true
    unexpired l other = rw other refl

release_lock-IsHeld :
    (j k : ℕ) (q : String) (lock : AccountLock) (db : Database)
    → (nat_beq j k && lock.request_id == q) ≡ false
    → IsHeld k lock db
    → IsHeld k lock (release_lock j q db).0
unfolding release_lock
release_lock-IsHeld j k q lock db allowed held now soon = elim (Bool-cases (nat_beq j k)) [
  | inr other ↦
      live_lock-keep_if now k (λ l. not (is_held_by j q l)) db.locks
        (λ l mine. untouched l (apart l.account_id j k other mine))
      ∙ held now soon
  | inl same ↦
      let different : (lock.request_id == q) ≡ false = rw (← allowed, same) refl in
      let e : j ≡ k = ground (arith, same) in
      rw e (live_lock-release now k q lock db.locks (held now soon) different)
]
  where
    untouched : (l : AccountLock) → nat_beq l.account_id j ≡ false → not (is_held_by j q l) ≡ true
    untouched l other = rw other refl

Run-IsHeld :
    (k : ℕ) (lock : AccountLock) (db v : Database)
    → Run k lock.request_id lock.expires_at db v
    → IsHeld k lock db
    → IsHeld k lock v
Run-IsHeld k lock db _ Run.here held = held
Run-IsHeld k lock db v (Run.next {u = u} run st) held =
    step u v st (Run-IsHeld k lock db u run held)
  where
    step :
        (u v : Database)
        → Step k lock.request_id lock.expires_at u v
        → IsHeld k lock u
        → IsHeld k lock v
    step u _ (Step.asked c j timeout q early) h = acquire_lock-IsHeld c j k timeout q lock u early h
    step u _ (Step.released j q allowed) h = release_lock-IsHeld j k q lock u allowed h
    step u v (Step.elsewhere same) h = λ now soon. ap (live_lock now k) same ∙ h now soon

-- A lock is acquired exactly if the account has no live lock, and a refused call changes nothing.
pub acquire_lock-cases :
    (c : Context) (k timeout : ℕ) (r : String) (db : Database)
    → let (db', (ok, _)) = acquire_lock c k r timeout db in
      ((ok ≡ true) × (live_lock c.now k db.locks ≡ none) × IsHeld k (new_lock c k r timeout) db')
      ⊎ ((ok ≡ false) × ((l : AccountLock) × (live_lock c.now k db.locks ≡ some l)) × (db' ≡ db))
acquire_lock-cases c k timeout r db = elim (Option-cases (live_lock c.now k db.locks)) [
  | inl free ↦
      let (result, none_left) = acquired c k timeout r db free in
      let lock = new_lock c k r timeout in
      rw result (
        inl (
          refl,
          free,
          λ now soon.
              live_lock-snoc now k lock (swept c.now k db.locks) none_left (beq_refl k) soon,
        ))
  | inr (l, held) ↦ rw (blocked c k timeout r l db held) (inr (refl, (l, held), refl))
]

-- A lock is acquired only where the account has no live lock. Once it is acquired, every call for
-- the account by anyone before the timeout has passed is refused with the holder's name and changes
-- nothing, unless the lock has been released under its account and request id: whatever locks have
-- been asked for, and whatever others released, in between.
pub acquire_lock_exclusive :
    (c c' : Context) (k timeout timeout' : ℕ) (r r' : String) (db v : Database)
    → let deadline = c.now + timeout * 1000000 in
      (acquire_lock c k r timeout db).1.0 ≡ true
      → Run k r deadline (acquire_lock c k r timeout db).0 v
      → ltb c'.now deadline ≡ true
      → (live_lock c.now k db.locks ≡ none)
        × (acquire_lock c' k r' timeout' v ≡ (v, (false, LockReply.locked_by c.server_id)))
acquire_lock_exclusive c c' k timeout timeout' r r' db v ok run early =
    elim (acquire_lock-cases c k timeout r db) [
      | inl (_, free, held) ↦
          let lock = new_lock c k r timeout in
          (
            free,
            blocked c' k timeout' r' lock v
                (Run-IsHeld k lock (acquire_lock c k r timeout db).0 v run held c'.now early),
          )
      | inr (bad, _, _) ↦ absurd (clash _ ok bad)
    ]
  where
    clash : (b : Bool) → b ≡ true → b ≡ false → ⊥
    clash b h k = cc
