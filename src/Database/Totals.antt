-- ===== src/Database/Totals.antt =====
-- Sums over the accounts and the transactions of the tables.
use mobile_money_simulator.Prelude.{
  ℕ, ◌≡◌, refl, inl, inr, List, [], ◌∷◌, ◌++◌, some, if◌then◌else◌, ◌==◌, nat_beq, Bool-cases,
  nat_eq,
}
use mobile_money_simulator.Prelude.Int.{ℤ, pos, ◌+ℤ◌, ◌-ℤ◌, int_laws}
use mobile_money_simulator.Dict.{Dict, lookup, insert}
use mobile_money_simulator.Database.{Account, Transaction, TransactionType}

-- The money in all accounts.
abbrev pub total : Dict ℕ Account → ℤ
total [] = pos 0
total ((k, a) ∷ d) = a.balance +ℤ total d

-- What a transaction adds to its account.
abbrev pub signed : Transaction → ℤ
signed t = elim t.transaction_type [
  | TransactionType.withdraw ↦ pos 0 -ℤ t.amount
  | TransactionType.deposit ↦ t.amount
  | TransactionType.transfer_out ↦ pos 0 -ℤ t.amount
  | TransactionType.transfer_in ↦ t.amount
]

-- What the transactions of an account add to it.
abbrev pub booked : ℕ → List Transaction → ℤ
booked k [] = pos 0
booked k (t ∷ ts) = if nat_beq t.account_id k then signed t +ℤ booked k ts else booked k ts

some_inj : {A : Type 0} {x y : A} → some x ≡ some y → x ≡ y
some_inj h = cc

-- A new balance changes the total by as much.
pub total-insert :
    (k : ℕ) (a b : Account) (d : Dict ℕ Account)
    → lookup k d ≡ some a
    → total (insert k b d) ≡ total d +ℤ (b.balance -ℤ a.balance)
total-insert k a b [] found = cc
total-insert k a b ((j, x) ∷ d) found = elim (Bool-cases (j == k)) [
  | inl t ↦
      let same : x ≡ a = some_inj (rw (← found, t) refl) in
      rw (t, same) (swapped a.balance b.balance (total d))
  | inr f ↦
      rw (f, total-insert k a b d (rw (← found, f) refl))
        (assoc x.balance (total d) (b.balance -ℤ a.balance))
]
  where
    swapped : (a b r : ℤ) → b +ℤ r ≡ a +ℤ r +ℤ (b -ℤ a)
    swapped a b r = omega int_laws

    assoc : (x r e : ℤ) → x +ℤ (r +ℤ e) ≡ x +ℤ r +ℤ e
    assoc x r e = omega int_laws

pub booked-snoc :
    (k : ℕ) (t : Transaction) (ts : List Transaction)
    → booked k (ts ++ t ∷ [])
      ≡ (if nat_beq t.account_id k then booked k ts +ℤ signed t else booked k ts)
booked-snoc k t [] = elim (Bool-cases (nat_beq t.account_id k)) [
  | inl same ↦ rw same (comm (signed t))
  | inr other ↦ rw other refl
]
  where
    comm : (x : ℤ) → x +ℤ pos 0 ≡ pos 0 +ℤ x
    comm x = omega int_laws
booked-snoc k t (u ∷ ts) = elim (Bool-cases (nat_beq u.account_id k)) [
  | inl mine ↦ elim (Bool-cases (nat_beq t.account_id k)) [
    | inl same ↦
        rw (mine, same) (rw (booked-snoc k t ts, same) (assoc (signed u) (booked k ts) (signed t)))
    | inr other ↦ rw (mine, other) (rw (booked-snoc k t ts, other) refl)
  ]
  | inr theirs ↦ rw theirs (booked-snoc k t ts)
]
  where
    assoc : (x y z : ℤ) → x +ℤ (y +ℤ z) ≡ x +ℤ y +ℤ z
    assoc x y z = omega int_laws
