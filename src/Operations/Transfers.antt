-- ===== src/Operations/Transfers.antt =====
-- A transfer as two postings.
use mobile_money_simulator.Prelude.{
  ℕ, String, ◌≡◌, ◌⊎◌, refl, inl, inr, Bool, true, false, not, [], ◌∷◌, ◌++◌, some, if◌then◌else◌,
  ◌==◌, Bool-cases, Option-cases, nat_eq, string_eq,
}
use mobile_money_simulator.Prelude.Int.{ℤ, pos, ◌+ℤ◌, ◌-ℤ◌, ◌≤ℤ◌, ltb_ℤ, leb_ℤ}
use mobile_money_simulator.Dict.{lookup, insert}
use mobile_money_simulator.Database.Totals.{signed}
use mobile_money_simulator.Database.{
  Account, Transaction, Database, add_transaction, with_balance, account_by_phone,
}
use mobile_money_simulator.Events.{Event}
use Prim.Native.String.{◌++◌ as ◌++ₛ◌}
use mobile_money_simulator.Operations.{Server, Context, Reply}
use mobile_money_simulator.Operations.Single.{credit, finish}
use mobile_money_simulator.Operations.Transfer.{
  TransferCall, source_events, add_second, in_booking, out_booking, transfer, transfer_commit,
  transfer_credited,
}
use mobile_money_simulator.Operations.Ledger.{
  IsPosted, add_transaction-cases, debited, stays, rises, lookup_written, debit_accepted,
}

source_events-database : (e f : Event) (s : Server) → (source_events e f s).database ≡ s.database
unfolding source_events
source_events-database e f s = elim (Bool-cases s.event_sourcing) [
  | inl on ↦ rw (on, source_events) refl
  | inr off ↦ rw (off, source_events) refl
]

-- Both sides of a transfer, with the tables between them.
pub record IsMoved (from : ℕ) (amount : ℤ) (request_id : String) (old new : Database) : Type 0 where
  pub to : ℕ
  pub between : Database
  pub paid : IsPosted from (pos 0 -ℤ amount) request_id old between
  pub received : IsPosted to amount (request_id ++ₛ "_to") between new

-- What a transfer made of the tables: with success, both sides; else nothing.
abbrev pub Moves : ℕ → ℤ → String → Server → Server × (Bool × Reply) → Type 0
Moves from amount request_id s r =
    ((r.1.0 ≡ false) × (r.0.database ≡ s.database))
    ⊎ ((r.1.0 ≡ true) × IsMoved from amount request_id s.database r.0.database)

Moves-if :
    (b : Bool) (from : ℕ) (amount : ℤ) (r : String) (s : Server) (x y : Server × (Bool × Reply))
    → (b ≡ true → Moves from amount r s x)
    → (b ≡ false → Moves from amount r s y)
    → Moves from amount r s (if b then x else y)
Moves-if true from amount r s x y f g = f refl
Moves-if false from amount r s x y f g = g refl

-- The commit of both transactions, about two accounts that have been written one after the other.
finish-Moves :
    (from to : ℕ) (amount : ℤ) (a a' b b' : Account) (t u : Transaction) (reply : Reply)
    (e f : Event) (s : Server)
    → let m = insert from a' s.database.accounts in
      lookup from s.database.accounts ≡ some a
      → lookup to m ≡ some b
      → a'.balance ≡ a.balance +ℤ (pos 0 -ℤ amount)
      → (pos 0 ≤ℤ a.balance → pos 0 ≤ℤ a'.balance)
      → b'.balance ≡ b.balance +ℤ amount
      → (pos 0 ≤ℤ b.balance → pos 0 ≤ℤ b'.balance)
      → (t.account_id ≡ from) × (signed t ≡ pos 0 -ℤ amount)
      → (u.account_id ≡ to) × (signed u ≡ amount)
      → (u.request_id ≡ t.request_id ++ₛ "_to")
      → Moves from amount t.request_id s (
          finish
            (add_second u (add_transaction t (record s.database { accounts = insert to b' m })))
            reply
            (source_events e f s))
finish-Moves from to amount a a' b b' t u reply e f s held held' less solvent more solvent' tells
      tells' names =
    let m = insert from a' s.database.accounts in
    let db = record s.database { accounts = insert to b' m } in
    let db' = record db { transactions = db.transactions ++ t ∷ [] } in
    elim (add_transaction-cases t db) [
      | inl taken ↦ rw taken (inl (refl, source_events-database e f s))
      | inr (free, added) ↦ rw added (elim (add_transaction-cases u db') [
        | inl taken ↦ rw taken (inl (refl, source_events-database e f s))
        | inr (free', added') ↦ rw added' (
            inr (
              refl,
              record {
                to = to;
                between = record db' { accounts = m };
                paid = record {
                  before = a;
                  after = a';
                  entry = t;
                  held = held;
                  written = refl;
                  changed = less;
                  solvent = solvent;
                  entered = refl;
                  fresh = free;
                  owner = tells.0;
                  named = refl;
                  says = tells.1;
                };
                received = record {
                  before = b;
                  after = b';
                  entry = u;
                  held = held';
                  written = refl;
                  changed = more;
                  solvent = solvent';
                  entered = refl;
                  fresh = free';
                  owner = tells'.0;
                  named = names;
                  says = tells'.1;
                };
              },
            ))
      ])
    ]

-- The credit and the commit, once the debit has been made.
credited-Moves :
    (c : Context) (call : TransferCall) (to : ℕ) (a a' : Account) (s : Server)
    → let from = call.from_account_id in
      let db = record s.database { accounts = insert from a' s.database.accounts } in
      lookup from s.database.accounts ≡ some a
      → a'.balance ≡ a.balance +ℤ (pos 0 -ℤ call.amount)
      → (pos 0 ≤ℤ a.balance → pos 0 ≤ℤ a'.balance)
      → leb_ℤ call.amount (pos 0) ≡ false
      → Moves from call.amount call.request_id s
          (transfer_credited c call to s (credit c to call.amount db))
unfolding credit transfer_commit
credited-Moves c call to a a' s held less solvent positive =
    let from = call.from_account_id in
    let m = insert from a' s.database.accounts in
    elim (Option-cases (lookup to m)) [
      | inl absent ↦ rw (absent, credit) (inl (refl, refl))
      | inr (b, found) ↦ elim (Bool-cases (b.account_status == "active")) [
        | inr inactive ↦ rw (found, inactive, credit) (inl (refl, refl))
        | inl active ↦
            let b' = with_balance c.server_id (b.balance +ℤ call.amount) b in
            rw (found, active, credit)
              (rw (lookup_written to b' m) (elim (Option-cases (lookup from (insert to b' m))) [
                | inl gone ↦ rw gone (inl (refl, refl))
                | inr (a'', still) ↦ rw still (
                    finish-Moves from to call.amount a a' b b' (out_booking c call a'')
                      (in_booking c call to b') _ _ _ s held found less solvent refl
                      (rises b.balance call.amount positive) (refl, refl) (refl, refl) refl)
              ]))
      ]
    ]

-- A transfer either is refused or raises, and then the tables stay, or it succeeds, and then the
-- source account has the amount less and the destination the amount more, also when they are the
-- same account. Each side is said by one new transaction with an unused request id, and a balance
-- that was not negative is not negative afterwards.
pub transfer-Moves :
    (c : Context) (call : TransferCall) (s : Server)
    → Moves call.from_account_id call.amount call.request_id s (transfer c call s)
unfolding transfer
transfer-Moves c call s =
    let from = call.from_account_id in
    let x = call.amount in
    Moves-if (leb_ℤ x (pos 0)) from x call.request_id s _ _ (λ _. inl (refl, refl))
      (λ positive. elim (Option-cases (lookup from s.database.accounts)) [
        | inl absent ↦ rw absent (inl (refl, refl))
        | inr (a, found) ↦ rw found (
            Moves-if (not (a.account_status == "active")) from x call.request_id s _ _
              (λ _. inl (refl, refl))
              (λ active.
                elim (Option-cases (account_by_phone call.to_phone_number s.database.accounts)) [
                  | inl unknown ↦ rw unknown (inl (refl, refl))
                  | inr (b, known) ↦ rw known (
                      Moves-if (not (b.account_status == "active")) from x call.request_id s _ _
                        (λ _. inl (refl, refl))
                        (λ usable.
                          Moves-if (ltb_ℤ a.balance x) from x call.request_id s _ _
                            (λ _. inl (refl, refl))
                            (λ enough.
                              let a' = with_balance c.server_id (a.balance -ℤ x) a in
                              rw (debit_accepted c from x a s.database found enough active) (
                                credited-Moves c call b.account_id a a' s found
                                  (debited a.balance x) (stays a.balance x enough) positive))))
                ]))
      ])
