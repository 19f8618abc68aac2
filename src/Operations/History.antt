-- ===== src/Operations/History.antt =====
-- `AccountOperations.get_last_transactions`: the rows of an account, the newest first. The order of
-- rows with equal times, which the database may choose, is the order of the table.
use mobile_money_simulator.Prelude.{
  ℕ, zero, suc, ◌≤◌, ◌≡◌, refl, ap, inl, inr, List, [], ◌∷◌, ◌++◌, All, All-imp, leb, nat_beq,
  keep_if, length, arith, if◌then◌else◌, Bool-cases,
}
use mobile_money_simulator.Replication.Receive.{limit}
use mobile_money_simulator.Database.{Transaction, Database}
use mathlib.Core.List.{Perm}
use mathlib.Core.List.Perm
use native.Mathlib.Nat.{le_trans}

abbrev pub insert_transaction : Transaction → List Transaction → List Transaction
insert_transaction t [] = t ∷ []
insert_transaction t (u ∷ us) =
    let rest = insert_transaction t us in
    if leb u.created_at t.created_at then t ∷ u ∷ us else u ∷ rest

-- order_by(Transaction.created_at.desc())
abbrev pub by_time : List Transaction → List Transaction
by_time [] = []
by_time (t ∷ ts) = insert_transaction t (by_time ts)

abbrev pub rows_of : ℕ → Database → List Transaction
rows_of account_id db = keep_if (λ t. nat_beq t.account_id account_id) db.transactions

unfoldable pub get_last_transactions : ℕ → ℕ → Database → List Transaction
get_last_transactions account_id count db = limit count (by_time (rows_of account_id db))

abbrev pub IsNewestFirst : List Transaction → Type 0
IsNewestFirst [] = Unit
IsNewestFirst (t ∷ ts) = All (λ u. u.created_at ≤ t.created_at) ts × IsNewestFirst ts

insert_transaction-perm :
    (t : Transaction) (us : List Transaction) → Perm (insert_transaction t us) (t ∷ us)
insert_transaction-perm t [] = Perm.refl (t ∷ [])
insert_transaction-perm t (u ∷ us) = elim (Bool-cases (leb u.created_at t.created_at)) [
  | inl first ↦ rw first (Perm.refl (t ∷ u ∷ us))
  | inr later ↦
      rw later (Perm.trans (Perm.cons u (insert_transaction-perm t us)) (Perm.swap t u us))
]

by_time-perm : (ts : List Transaction) → Perm (by_time ts) ts
by_time-perm [] = Perm.refl []
by_time-perm (t ∷ ts) =
    Perm.trans (insert_transaction-perm t (by_time ts)) (Perm.cons t (by_time-perm ts))

All-insert_transaction :
    (P : Transaction → Type 0) (t : Transaction) (us : List Transaction)
    → P t
    → All P us
    → All P (insert_transaction t us)
All-insert_transaction P t [] p all = (p, tt)
All-insert_transaction P t (u ∷ us) p all = elim (Bool-cases (leb u.created_at t.created_at)) [
  | inl first ↦ rw first (p, all)
  | inr later ↦ rw later (all.0, All-insert_transaction P t us p all.1)
]

insert_transaction-IsNewestFirst :
    (t : Transaction) (us : List Transaction)
    → IsNewestFirst us
    → IsNewestFirst (insert_transaction t us)
insert_transaction-IsNewestFirst t [] h = (tt, tt)
insert_transaction-IsNewestFirst t (u ∷ us) h = elim (Bool-cases (leb u.created_at t.created_at)) [
  | inl first ↦
      let older : u.created_at ≤ t.created_at = ground arith in
      rw first ((older, All-imp us (λ z q. le_trans q older) h.0), h)
  | inr later ↦
      let older : t.created_at ≤ u.created_at = ground arith in
      rw later (
        All-insert_transaction (λ z. z.created_at ≤ u.created_at) t us older h.0,
        insert_transaction-IsNewestFirst t us h.1,
      )
]

by_time-IsNewestFirst : (ts : List Transaction) → IsNewestFirst (by_time ts)
by_time-IsNewestFirst [] = tt
by_time-IsNewestFirst (t ∷ ts) =
    insert_transaction-IsNewestFirst t (by_time ts) (by_time-IsNewestFirst ts)

limit_rest : (n : ℕ) (ts : List Transaction) → (rest : List Transaction) × (limit n ts ++ rest ≡ ts)
limit_rest zero ts = (ts, refl)
limit_rest (suc n) [] = ([], refl)
limit_rest (suc n) (t ∷ ts) = let (rest, same) = limit_rest n ts in (rest, ap (λ l. t ∷ l) same)

length-limit : (n : ℕ) (ts : List Transaction) → length (limit n ts) ≤ n
length-limit zero ts = omega arith
length-limit (suc n) [] = omega arith
length-limit (suc n) (t ∷ ts) = let shorter = length-limit n ts in omega arith

-- The last transactions of an account are at most as many as asked for; with the others they are
-- the rows of the account, and in this order the newest come first.
pub get_last_transactions_newest :
    (account_id count : ℕ) (db : Database)
    → (length (get_last_transactions account_id count db) ≤ count)
      × (rest : List Transaction) × Perm
          (get_last_transactions account_id count db ++ rest)
          (rows_of account_id db)
      × IsNewestFirst (get_last_transactions account_id count db ++ rest)
unfolding get_last_transactions
get_last_transactions_newest account_id count db =
    let rows = by_time (rows_of account_id db) in
    let (rest, same) = limit_rest count rows in
    (
      length-limit count rows,
      rest,
      rw same (by_time-perm (rows_of account_id db)),
      rw same (by_time-IsNewestFirst (rows_of account_id db)),
    )
