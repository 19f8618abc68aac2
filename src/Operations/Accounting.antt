-- ===== src/Operations/Accounting.antt =====
-- What sequences of operations keep: the books, the balances, and the request ids.
use mobile_money_simulator.Prelude.{
  ℕ, String, ◌≡◌, ◌⊎◌, refl, sym, ◌∙◌, inl, inr, Bool, true, false, ◌||◌, List, [], ◌∷◌, ◌++◌, some,
  arith, ◌==◌, nat_beq, Bool-cases, beq_eq, beq_refl, nat_eq, string_eq, All,
}
use mobile_money_simulator.Prelude.Int.{ℤ, pos, ◌+ℤ◌, ◌-ℤ◌, ◌≤ℤ◌, int_laws}
use mobile_money_simulator.Dict.{lookup, lookup-insert, All-insert, All_lookup}
use mobile_money_simulator.Database.{Account, Transaction, Database, has_request}
use mobile_money_simulator.Database.Totals.{total, booked, total-insert, booked-snoc}
use mobile_money_simulator.Operations.{Server, Context}
use mobile_money_simulator.Operations.Single.{Call, withdraw, deposit}
use mobile_money_simulator.Operations.Transfer.{TransferCall, transfer}
use mobile_money_simulator.Operations.Ledger.{IsPosted, withdraw-Posts, deposit-Posts}
use mobile_money_simulator.Operations.Transfers.{transfer-Moves}

abbrev pub NotNegative : ℕ × Account → Type 0
NotNegative (k, a) = pos 0 ≤ℤ a.balance

-- No request id stands twice.
abbrev pub DistinctRequests : List Transaction → Type 0
DistinctRequests [] = Unit
DistinctRequests (t ∷ ts) = (has_request t.request_id ts ≡ false) × DistinctRequests ts

-- Every balance is the opening balance and the transactions of the account, no balance is
-- negative, and no two transactions have one request id.
pub record IsSound (opening : ℕ → ℤ) (db : Database) : Type 0 where
  pub explained :
      (k : ℕ) (a : Account)
      → lookup k db.accounts ≡ some a
      → a.balance ≡ opening k +ℤ booked k db.transactions
  pub solvent : All NotNegative db.accounts
  pub distinct : DistinctRequests db.transactions

has_request-snoc :
    (r : String) (t : Transaction) (ts : List Transaction)
    → has_request r (ts ++ t ∷ []) ≡ has_request r ts || t.request_id == r
has_request-snoc r t [] = ground arith
has_request-snoc r t (u ∷ ts) = ground (arith, has_request-snoc r t ts)

DistinctRequests-snoc :
    (t : Transaction) (ts : List Transaction)
    → has_request t.request_id ts ≡ false
    → DistinctRequests ts
    → DistinctRequests (ts ++ t ∷ [])
DistinctRequests-snoc t [] f h = (refl, tt)
DistinctRequests-snoc t (u ∷ ts) f h = (
  ground (
    arith,
    has_request-snoc u.request_id t ts,
    h.0,
    beq_eq t.request_id u.request_id,
    beq_refl u.request_id,
  ),
  DistinctRequests-snoc t ts (ground arith) h.1,
)

some_inj : {x y : Account} → some x ≡ some y → x ≡ y
some_inj h = cc

IsPosted-IsSound :
    (opening : ℕ → ℤ) (k : ℕ) (delta : ℤ) (r : String) (db db' : Database)
    → IsPosted k delta r db db'
    → IsSound opening db
    → IsSound opening db'
IsPosted-IsSound opening k delta r db db' p h = record {
  explained = λ j a found. elim (Bool-cases (nat_beq k j)) [
    | inl same ↦
        let mine : p.after ≡ a =
          some_inj
            (sym (lookup-insert k j p.after db.accounts ∙ rw same refl) ∙ rw (← p.written) found) in
        let old : p.before.balance ≡ opening j +ℤ booked j db.transactions =
          h.explained j p.before (rw (← beq_eq k j same) p.held) in
        rw
          (
            p.entered,
            booked-snoc j p.entry db.transactions,
            p.owner,
            same,
            p.says,
            ← mine,
            p.changed,
            old,
          )
          (assoc (opening j) (booked j db.transactions) delta)
    | inr other ↦
        rw (p.entered, booked-snoc j p.entry db.transactions, p.owner, other)
          (h.explained j a
            (sym (lookup-insert k j p.after db.accounts ∙ rw other refl) ∙ rw (← p.written) found))
  ];
  solvent = rw p.written (
      All-insert NotNegative k p.after db.accounts
        (p.solvent (All_lookup NotNegative k p.before db.accounts h.solvent p.held)) h.solvent);
  distinct = rw p.entered (DistinctRequests-snoc p.entry db.transactions p.fresh h.distinct);
}
  where
    assoc : (x y z : ℤ) → x +ℤ y +ℤ z ≡ x +ℤ (y +ℤ z)
    assoc x y z = omega int_laws

-- One operation of `AccountOperations` that writes.
pub data Step (s : Server) : Server → Type 0 where
  withdrawn : (c : Context) (call : Call) → Step s (withdraw c call s).0
  deposited : (c : Context) (call : Call) → Step s (deposit c call s).0
  transferred : (c : Context) (call : TransferCall) → Step s (transfer c call s).0

pub data Run (s : Server) : Server → Type 0 where
  start : Run s s
  later : {t u : Server} → Run s t → Step t u → Run s u

posted-IsSound :
    (opening : ℕ → ℤ) (k : ℕ) (delta : ℤ) (r : String) (ok : Bool) (db db' : Database)
    → ((ok ≡ false) × (db' ≡ db)) ⊎ ((ok ≡ true) × IsPosted k delta r db db')
    → IsSound opening db
    → IsSound opening db'
posted-IsSound opening k delta r ok db db' (inl (_, same)) h = rw same h
posted-IsSound opening k delta r ok db db' (inr (_, p)) h =
    IsPosted-IsSound opening k delta r db db' p h

Step-IsSound :
    (opening : ℕ → ℤ) (s t : Server)
    → Step s t
    → IsSound opening s.database
    → IsSound opening t.database
Step-IsSound opening s _ (Step.withdrawn c call) h =
    posted-IsSound opening call.account_id (pos 0 -ℤ call.amount) call.request_id _ _ _
      (withdraw-Posts c call s) h
Step-IsSound opening s _ (Step.deposited c call) h =
    posted-IsSound opening call.account_id call.amount call.request_id _ _ _
      (deposit-Posts c call s) h
Step-IsSound opening s _ (Step.transferred c call) h = elim (transfer-Moves c call s) [
  | inl (_, same) ↦ rw same h
  | inr (_, m) ↦ IsPosted-IsSound opening m.to call.amount _ m.between _ m.received (
      IsPosted-IsSound opening call.from_account_id (pos 0 -ℤ call.amount) call.request_id _
        m.between m.paid h)
]

-- Whatever withdrawals, deposits and transfers a server performs, refused and failing ones
-- included, each account's balance stays its opening balance and what its transactions say, no
-- balance becomes negative, and no request id is booked twice. The tables that the sequence starts
-- with have these properties.
pub Run-IsSound :
    (opening : ℕ → ℤ) (s t : Server)
    → IsSound opening s.database
    → Run s t
    → IsSound opening t.database
Run-IsSound opening s _ h Run.start = h
Run-IsSound opening s u h (Run.later {t = t} r st) =
    Step-IsSound opening t u st (Run-IsSound opening s t h r)

total-IsPosted :
    (k : ℕ) (delta : ℤ) (r : String) (db db' : Database)
    → IsPosted k delta r db db'
    → total db'.accounts ≡ total db.accounts +ℤ delta
total-IsPosted k delta r db db' p =
    rw (p.written, total-insert k p.before p.after db.accounts p.held, p.changed)
      (cancel (total db.accounts) p.before.balance delta)
  where
    cancel : (t b d : ℤ) → t +ℤ (b +ℤ d -ℤ b) ≡ t +ℤ d
    cancel t b d = omega int_laws

-- A transfer never changes the money in all accounts together, whatever its outcome and also from
-- an account to itself; when it fails, the tables are as before.
pub transfer-total :
    (c : Context) (call : TransferCall) (s : Server)
    → (total (transfer c call s).0.database.accounts ≡ total s.database.accounts)
      × ((transfer c call s).1.0 ≡ false → (transfer c call s).0.database ≡ s.database)
transfer-total c call s = elim (transfer-Moves c call s) [
  | inl (_, same) ↦ (rw same refl, λ _. same)
  | inr (ok, m) ↦ (
    total-IsPosted m.to call.amount _ m.between _ m.received
        ∙ rw
            (total-IsPosted call.from_account_id (pos 0 -ℤ call.amount) call.request_id s.database
              m.between m.paid)
            (back (total s.database.accounts) call.amount),
    λ bad. absurd (clash (transfer c call s).1.0 ok bad),
  )
]
  where
    back : (t x : ℤ) → t +ℤ (pos 0 -ℤ x) +ℤ x ≡ t
    back t x = omega int_laws

    clash : (b : Bool) → b ≡ true → b ≡ false → ⊥
    clash b h k = cc
