-- ===== src/Operations/Ledger.antt =====
-- The tables before and after an operation.
use mobile_money_simulator.Prelude.{
  ℕ, String, ◌≡◌, ◌⊎◌, refl, inl, inr, Bool, true, false, not, [], ◌∷◌, ◌++◌, none, some, arith,
  if◌then◌else◌, ◌==◌, Bool-cases, Option-cases, beq_refl, nat_eq, string_eq,
}
use mobile_money_simulator.Prelude.Int.{
  ℤ, pos, ◌+ℤ◌, ◌-ℤ◌, ◌≤ℤ◌, ltb_ℤ, leb_ℤ, +ℤ_parts, -ℤ_parts, int_laws,
}
use mobile_money_simulator.Dict.{Dict, lookup, insert, lookup-insert}
use mobile_money_simulator.Database.{
  Account, Transaction, Database, add_transaction, has_request, with_balance,
}
use mobile_money_simulator.Database.Totals.{signed}
use mobile_money_simulator.Events.{Event}
use mobile_money_simulator.Operations.{Server, Context, Reply}
use mobile_money_simulator.Operations.Single.{
  Call, debit, credit, source_event, finish, withdraw, withdraw_commit, withdraw_event, deposit,
  deposit_commit, deposit_event,
}

-- The account gets a new balance, and a transaction is booked that says by how much.
pub record IsPosted (k : ℕ) (delta : ℤ) (request_id : String) (old new : Database) : Type 0 where
  pub before : Account
  pub after : Account
  pub entry : Transaction
  pub held : lookup k old.accounts ≡ some before
  pub written : new.accounts ≡ insert k after old.accounts
  pub changed : after.balance ≡ before.balance +ℤ delta
  pub solvent : pos 0 ≤ℤ before.balance → pos 0 ≤ℤ after.balance
  pub entered : new.transactions ≡ old.transactions ++ entry ∷ []
  pub fresh : has_request entry.request_id old.transactions ≡ false
  pub owner : entry.account_id ≡ k
  pub named : entry.request_id ≡ request_id
  pub says : signed entry ≡ delta

pub add_transaction-cases :
    (t : Transaction) (db : Database)
    → (add_transaction t db ≡ none)
      ⊎ ((has_request t.request_id db.transactions ≡ false)
          × (add_transaction t db ≡ some (record db { transactions = db.transactions ++ t ∷ [] })))
unfolding add_transaction
add_transaction-cases t db = elim (Bool-cases (has_request t.request_id db.transactions)) [
  | inl taken ↦ inl (rw (taken, add_transaction) refl)
  | inr free ↦ inr (free, rw (free, add_transaction) refl)
]

source_event-database : (e : Event) (s : Server) → (source_event e s).database ≡ s.database
unfolding source_event
source_event-database e s = elim (Bool-cases s.event_sourcing) [
  | inl on ↦ rw (on, source_event) refl
  | inr off ↦ rw (off, source_event) refl
]

-- What a call made of the tables: with success, a posting; else nothing.
abbrev pub Posts : ℕ → ℤ → String → Server → Server × (Bool × Reply) → Type 0
Posts k delta request_id s r =
    ((r.1.0 ≡ false) × (r.0.database ≡ s.database))
    ⊎ ((r.1.0 ≡ true) × IsPosted k delta request_id s.database r.0.database)

Posts-if :
    (b : Bool) (k : ℕ) (delta : ℤ) (r : String) (s : Server) (x y : Server × (Bool × Reply))
    → (b ≡ true → Posts k delta r s x)
    → (b ≡ false → Posts k delta r s y)
    → Posts k delta r s (if b then x else y)
Posts-if true k delta r s x y f g = f refl
Posts-if false k delta r s x y f g = g refl

-- The commit of a transaction about an account that has been written.
finish-Posts :
    (k : ℕ) (delta : ℤ) (a b : Account) (t : Transaction) (reply : Reply) (e : Event) (s : Server)
    → lookup k s.database.accounts ≡ some a
    → b.balance ≡ a.balance +ℤ delta
    → (pos 0 ≤ℤ a.balance → pos 0 ≤ℤ b.balance)
    → t.account_id ≡ k
    → signed t ≡ delta
    → Posts k delta t.request_id s (
        finish
          (add_transaction t (record s.database { accounts = insert k b s.database.accounts }))
          reply
          (source_event e s))
finish-Posts k delta a b t reply e s held changed solvent owner says =
    let db = record s.database { accounts = insert k b s.database.accounts } in
    elim (add_transaction-cases t db) [
      | inl taken ↦ rw taken (inl (refl, source_event-database e s))
      | inr (free, added) ↦ rw added (
          inr (
            refl,
            record {
              before = a;
              after = b;
              entry = t;
              held = held;
              written = refl;
              changed = changed;
              solvent = solvent;
              entered = refl;
              fresh = free;
              owner = owner;
              named = refl;
              says = says;
            },
          ))
    ]

pub debited : (a : ℤ) (x : ℤ) → a -ℤ x ≡ a +ℤ (pos 0 -ℤ x)
debited a x = omega int_laws

pub stays : (a x : ℤ) → ltb_ℤ a x ≡ false → pos 0 ≤ℤ a → pos 0 ≤ℤ a -ℤ x
stays a x h p = ground (arith, -ℤ_parts a x)

pub rises : (a x : ℤ) → leb_ℤ x (pos 0) ≡ false → pos 0 ≤ℤ a → pos 0 ≤ℤ a +ℤ x
rises a x h p = ground (arith, +ℤ_parts a x)

covered : (a x : ℤ) → ltb_ℤ a x ≡ false → leb_ℤ x a ≡ true
covered a x h = ground arith

pub is_true : (b : Bool) → not b ≡ false → b ≡ true
is_true true h = refl
is_true false h = cc

-- The update that a withdrawal makes once its checks have passed.
pub debit_accepted :
    (c : Context) (k : ℕ) (amount : ℤ) (a : Account) (db : Database)
    → lookup k db.accounts ≡ some a
    → ltb_ℤ a.balance amount ≡ false
    → not (a.account_status == "active") ≡ false
    → debit c k amount db ≡ (
      record db {
        accounts = insert k (with_balance c.server_id (a.balance -ℤ amount) a) db.accounts;
      },
      1,
    )
unfolding debit
debit_accepted c k amount a db found enough active =
    rw
      (found, covered a.balance amount enough, is_true (a.account_status == "active") active, debit)
      refl

pub credit_accepted :
    (c : Context) (k : ℕ) (amount : ℤ) (a : Account) (db : Database)
    → lookup k db.accounts ≡ some a
    → (a.account_status == "active") ≡ true
    → credit c k amount db ≡ (
      record db {
        accounts = insert k (with_balance c.server_id (a.balance +ℤ amount) a) db.accounts;
      },
      1,
    )
unfolding credit
credit_accepted c k amount a db found active = rw (found, active, credit) refl

pub lookup_written : (k : ℕ) (a : Account) (d : Dict ℕ Account) → lookup k (insert k a d) ≡ some a
lookup_written k a d = ground (arith, lookup-insert k k a d, beq_refl k)

-- A withdrawal either is refused or raises, and then the tables stay, or it succeeds, and then the
-- account has the amount less, which one new transaction with an unused request id says; a balance
-- that was not negative is not negative afterwards.
pub withdraw-Posts :
    (c : Context) (call : Call) (s : Server)
    → Posts call.account_id (pos 0 -ℤ call.amount) call.request_id s (withdraw c call s)
unfolding withdraw withdraw_commit
withdraw-Posts c call s =
    let k = call.account_id in
    let delta = pos 0 -ℤ call.amount in
    Posts-if (leb_ℤ call.amount (pos 0)) k delta call.request_id s _ _ (λ _. inl (refl, refl))
      (λ positive. elim (Option-cases (lookup k s.database.accounts)) [
        | inl absent ↦ rw absent (inl (refl, refl))
        | inr (a, found) ↦ rw found (
            Posts-if (not (a.account_status == "active")) k delta call.request_id s _ _
              (λ _. inl (refl, refl))
              (λ active.
                Posts-if (ltb_ℤ a.balance call.amount) k delta call.request_id s _ _
                  (λ _. inl (refl, refl))
                  (λ enough.
                    let b = with_balance c.server_id (a.balance -ℤ call.amount) a in
                    rw (debit_accepted c k call.amount a s.database found enough active) (
                      rw (lookup_written k b s.database.accounts) (
                        finish-Posts k delta a b _ _ (withdraw_event c call b s) s found
                          (debited a.balance call.amount) (stays a.balance call.amount enough) refl
                          refl)))))
      ])

-- A deposit either is refused or raises, and then the tables stay, or it succeeds, and then the
-- account has the amount more, which one new transaction with an unused request id says; a balance
-- that was not negative is not negative afterwards.
pub deposit-Posts :
    (c : Context) (call : Call) (s : Server)
    → Posts call.account_id call.amount call.request_id s (deposit c call s)
unfolding deposit deposit_commit
deposit-Posts c call s =
    let k = call.account_id in
    let delta = call.amount in
    Posts-if (leb_ℤ call.amount (pos 0)) k delta call.request_id s _ _ (λ _. inl (refl, refl))
      (λ positive. elim (Option-cases (lookup k s.database.accounts)) [
        | inl absent ↦ rw absent (inl (refl, refl))
        | inr (a, found) ↦ rw found (
            Posts-if (not (a.account_status == "active")) k delta call.request_id s _ _
              (λ _. inl (refl, refl))
              (λ active.
                let b = with_balance c.server_id (a.balance +ℤ call.amount) a in
                rw
                  (credit_accepted c k call.amount a s.database found
                    (is_true (a.account_status == "active") active))
                  (rw (lookup_written k b s.database.accounts) (
                    finish-Posts k delta a b _ _ (deposit_event c call b s) s found refl
                      (rises a.balance call.amount positive) refl refl))))
      ])
