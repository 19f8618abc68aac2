-- ===== src/Commit/Phases.antt =====
-- The phases of a transaction.
use mobile_money_simulator.Prelude.{
  ℕ, String, ◌≡◌, refl, ◌↔◌, inl, inr, true, false, Option, none, some, arith, if◌then◌else◌, ◌==◌,
  Bool-cases, Option-cases, beq_eq, beq_refl, nat_eq, string_eq,
}
use mobile_money_simulator.Dict.{
  Dict, lookup, contains, insert, erase, lookup-insert, lookup-erase, contains-lookup,
}
use mobile_money_simulator.Commit.{
  CommitPhase, CommitTransaction, CommitManager, not_in_prepare, commit_transaction,
  rollback_transaction, finalize_transaction,
}

-- The phase of a transaction, if it is known.
abbrev pub phase : String → CommitManager → Option CommitPhase
phase t m = elim (lookup t m.transactions) [ none ↦ none | some txn ↦ some txn.status ]

-- A commit succeeds exactly from the PREPARE phase; then the transaction is in the COMMIT phase,
-- and otherwise nothing changes. No other transaction changes its phase.
pub commit_transaction-phase :
    (t u : String) (m : CommitManager)
    → let (m', (done, _)) = commit_transaction t m in
      ((done ≡ true) ↔ (phase t m ≡ some CommitPhase.prepare))
      × (done ≡ false → m' ≡ m)
      × (phase u m'
          ≡ (if done then (if t == u then some CommitPhase.commit else phase u m) else phase u m))
unfolding commit_transaction
commit_transaction-phase t u m = elim (Option-cases (lookup t m.transactions)) [
  | inl unknown ↦ rw (unknown, commit_transaction) ((λ h. cc, λ h. cc), λ h. refl, refl)
  | inr (txn, found) ↦
      let txn' : CommitTransaction = record txn { status = CommitPhase.commit } in
      (
        (λ h. ground arith, λ h. ground arith),
        λ h. ground arith,
        ground (arith, lookup-insert t u txn' m.transactions),
      )
]

-- A rollback of a known transaction always succeeds, in whatever phase it is, and puts it in the
-- ROLLBACK phase: from there no commit succeeds.
pub rollback_transaction-phase :
    (t reason : String) (m : CommitManager) (p : CommitPhase)
    → phase t m ≡ some p
    → let (m', (done, _)) = rollback_transaction t reason m in
      (done ≡ true)
      × (phase t m' ≡ some CommitPhase.rollback)
      × (commit_transaction t m' ≡ (m', (false, not_in_prepare CommitPhase.rollback)))
unfolding rollback_transaction commit_transaction
rollback_transaction-phase t reason m p h = elim (Option-cases (lookup t m.transactions)) [
  | inl unknown ↦ cc
  | inr (txn, found) ↦
      let txn' : CommitTransaction = record txn { status = CommitPhase.rollback } in
      let again : lookup t (insert t txn' m.transactions) ≡ some txn' =
        ground (arith, lookup-insert t t txn' m.transactions, beq_refl t) in
      rw (found, rollback_transaction)
        (refl, rw (again, phase) refl, rw (again, commit_transaction) refl)
]

-- Even a committed transaction can be rolled back.
pub rollback_after_commit :
    (t reason : String) (m : CommitManager)
    → phase t m ≡ some CommitPhase.prepare
    → let committed = (commit_transaction t m).0 in
      (phase t committed ≡ some CommitPhase.commit)
      × ((rollback_transaction t reason committed).1.0 ≡ true)
      × (phase t (rollback_transaction t reason committed).0 ≡ some CommitPhase.rollback)
rollback_after_commit t reason m h =
    let (ready, _, after) = commit_transaction-phase t t m in
    let in_commit : phase t (commit_transaction t m).0 ≡ some CommitPhase.commit =
      ground (arith, after, ready.1 h, beq_refl t) in
    let (done, rolled, _) =
      rollback_transaction-phase t reason (commit_transaction t m).0 CommitPhase.commit in_commit in
    (in_commit, done, rolled)

freed :
    (a b : ℕ) (locks : Dict ℕ String)
    → lookup b (if contains a locks then erase a locks else locks)
      ≡ (if a == b then none else lookup b locks)
freed a b locks = elim (Bool-cases (contains a locks)) [
  | inl held ↦ rw held (lookup-erase a b locks)
  | inr free ↦ rw free (ground (arith, contains-lookup a locks free, beq_eq a b))
]

-- Finalizing or rolling back a known transaction frees its account whoever holds the lock, a
-- later transaction on that account included; every other account stays as it is.
pub finalize_transaction_frees :
    (t reason : String) (b : ℕ) (m : CommitManager) (txn : CommitTransaction)
    → lookup t m.transactions ≡ some txn
    → (lookup b (finalize_transaction t m).0.account_locks
        ≡ (if txn.account_id == b then none else lookup b m.account_locks))
      × (lookup b (rollback_transaction t reason m).0.account_locks
          ≡ (if txn.account_id == b then none else lookup b m.account_locks))
unfolding finalize_transaction rollback_transaction
finalize_transaction_frees t reason b m txn found = (
  rw (found, finalize_transaction) (freed txn.account_id b m.account_locks),
  rw (found, rollback_transaction) (freed txn.account_id b m.account_locks),
)
