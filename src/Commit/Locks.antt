-- ===== src/Commit/Locks.antt =====
-- The agreement of the locks, transactions and votes of the coordinator, as an invariant.
use mobile_money_simulator.Prelude.{
  ℕ, String, ◌≡◌, inl, inr, Option, none, some, [], arith, if◌then◌else◌, ◌==◌, Bool-cases,
  Option-cases, beq_eq, beq_refl, nat_eq, string_eq,
}
use mobile_money_simulator.Prelude.Int.{ℤ}
use mobile_money_simulator.Dict.{Dict, lookup, contains, insert, erase, lookup-insert, lookup-erase}
use mobile_money_simulator.Commit.{
  CommitPhase, ReplicaVote, CommitTransaction, CommitManager, init, add_vote, fresh_transaction,
  create_transaction, note_vote, record_prepare_vote, commit_transaction, is_prepare, release,
  rollback_transaction, finalize_transaction,
}

-- What the transactions say of a transaction id: its account, and its votes.
abbrev pub account_of : String → Dict String CommitTransaction → Option ℕ
account_of t d = elim (lookup t d) [ none ↦ none | some txn ↦ some txn.account_id ]

abbrev pub votes_of : String → Dict String CommitTransaction → Option (Dict String ReplicaVote)
votes_of t d = elim (lookup t d) [ none ↦ none | some txn ↦ some txn.votes ]

abbrev pub id_of : String → Dict String CommitTransaction → Option String
id_of t d = elim (lookup t d) [ none ↦ none | some txn ↦ some txn.transaction_id ]

-- A locked account is locked by a known transaction on that account, the votes kept beside the
-- transactions are the transactions' own, and each transaction is filed under its id.
pub record IsConsistent (m : CommitManager) : Type 0 where
  pub locked :
      (a : ℕ) (t : String)
      → lookup a m.account_locks ≡ some t
      → account_of t m.transactions ≡ some a
  pub voted :
      (t : String) (v : Dict String ReplicaVote)
      → lookup t m.prepare_votes ≡ some v
      → votes_of t m.transactions ≡ some v
  pub filed : (t u : String) → id_of t m.transactions ≡ some u → u ≡ t

-- One call of a method. A new transaction has an id that no earlier one has.
pub data Step : CommitManager → CommitManager → Type 0 where
  created :
      {m : CommitManager} (t : String) (now a : ℕ) (x : ℤ) (r : String)
      → lookup t m.transactions ≡ none
      → Step m (create_transaction t now a x r m).0
  vote_recorded :
      {m : CommitManager} (t r : String) (v : ReplicaVote) → Step m (record_prepare_vote t r v m)
  was_committed : {m : CommitManager} (t : String) → Step m (commit_transaction t m).0
  was_rolled_back :
      {m : CommitManager} (t reason : String) → Step m (rollback_transaction t reason m).0
  was_finalized : {m : CommitManager} (t : String) → Step m (finalize_transaction t m).0

pub data Reach (m : CommitManager) : CommitManager → Type 0 where
  here : Reach m m
  next : {u v : CommitManager} → Reach m u → Step u v → Reach m v

IsConsistent-init : (n : String) → IsConsistent (init n)
IsConsistent-init n = record { locked = λ a t h. cc; voted = λ t v h. cc; filed = λ t u h. cc }

module _ (t u : String) (txn : CommitTransaction) (d : Dict String CommitTransaction) where
  account_of-insert :
      account_of u (insert t txn d) ≡ (if t == u then some txn.account_id else account_of u d)
  account_of-insert = ground (arith, lookup-insert t u txn d)

  votes_of-insert : votes_of u (insert t txn d) ≡ (if t == u then some txn.votes else votes_of u d)
  votes_of-insert = ground (arith, lookup-insert t u txn d)

  id_of-insert : id_of u (insert t txn d) ≡ (if t == u then some txn.transaction_id else id_of u d)
  id_of-insert = ground (arith, lookup-insert t u txn d)

create_transaction-IsConsistent :
    (t : String) (now a : ℕ) (x : ℤ) (r : String) (m : CommitManager)
    → lookup t m.transactions ≡ none
    → IsConsistent m
    → IsConsistent (create_transaction t now a x r m).0
unfolding create_transaction
create_transaction-IsConsistent t now a x r m new h =
    elim (Option-cases (lookup a m.account_locks)) [
      | inr (holder, e) ↦ rw (e, create_transaction) h
      | inl free ↦
          let txn = fresh_transaction t now m.node_id a x r in
          rw (free, create_transaction)
            (record {
              locked = λ b u e. ground (
                arith,
                lookup-insert a b t m.account_locks,
                account_of-insert t u txn m.transactions,
                h.locked b u,
                beq_eq a b,
                beq_eq t u,
                beq_refl t,
              );
              voted = λ u v e. ground (
                arith,
                lookup-insert t u [] m.prepare_votes,
                votes_of-insert t u txn m.transactions,
                h.voted u v,
                beq_eq t u,
              );
              filed = λ u w e.
                  ground (arith, id_of-insert t u txn m.transactions, h.filed u w, beq_eq t u);
            })
    ]

note_vote-voted :
    (t r : String) (v : ReplicaVote) (txn : CommitTransaction) (m : CommitManager)
    → IsConsistent m
    → lookup t m.transactions ≡ some txn
    → (u : String) (w : Dict String ReplicaVote)
    → lookup u (note_vote t r v m.prepare_votes) ≡ some w
    → votes_of u (insert t (add_vote r v txn) m.transactions) ≡ some w
unfolding add_vote
note_vote-voted t r v txn m h found u w e = elim (Option-cases (lookup t m.prepare_votes)) [
  | inl closed ↦
      ground (arith, votes_of-insert t u (add_vote r v txn) m.transactions, h.voted u w, beq_eq t u)
  | inr (votes, kept) ↦ ground (
    arith,
    votes_of-insert t u (add_vote r v txn) m.transactions,
    lookup-insert t u (insert r v votes) m.prepare_votes,
    h.voted u w,
    h.voted t votes,
    beq_eq t u,
  )
]

record_prepare_vote-IsConsistent :
    (t r : String) (v : ReplicaVote) (m : CommitManager)
    → IsConsistent m
    → IsConsistent (record_prepare_vote t r v m)
unfolding record_prepare_vote
record_prepare_vote-IsConsistent t r v m h = elim (Option-cases (lookup t m.transactions)) [
  | inl unknown ↦ rw (unknown, record_prepare_vote) h
  | inr (txn, found) ↦
      rw (found, record_prepare_vote)
        (record {
          locked = λ a u e. ground (
            arith,
            account_of-insert t u (add_vote r v txn) m.transactions,
            h.locked a u,
            beq_eq t u,
          );
          voted = note_vote-voted t r v txn m h found;
          filed = λ u w e. ground (
            arith,
            id_of-insert t u (add_vote r v txn) m.transactions,
            h.filed u w,
            h.filed t w,
            beq_eq t u,
          );
        })
]

-- Setting the status of a known transaction, and giving up locks, keeps the agreement.
set_status-IsConsistent :
    (t : String) (s : CommitPhase) (txn : CommitTransaction) (m : CommitManager)
    → IsConsistent m
    → lookup t m.transactions ≡ some txn
    → IsConsistent (record m { transactions = insert t (record txn { status = s }) m.transactions })
set_status-IsConsistent t s txn m h found =
    let txn' : CommitTransaction = record txn { status = s } in
    record {
      locked = λ a u e.
          ground (arith, account_of-insert t u txn' m.transactions, h.locked a u, beq_eq t u);
      voted =
          λ u w e. ground (arith, votes_of-insert t u txn' m.transactions, h.voted u w, beq_eq t u);
      filed =
          λ u w e. ground (arith, id_of-insert t u txn' m.transactions, h.filed u w, beq_eq t u);
    }

release-IsConsistent :
    (a : ℕ) (m : CommitManager)
    → IsConsistent m
    → IsConsistent (record m { account_locks = release a m.account_locks })
release-IsConsistent a m h = record {
  locked = λ b u e. ground (arith, lookup-erase a b m.account_locks, h.locked b u);
  voted = h.voted;
  filed = h.filed;
}

forget_votes-IsConsistent :
    (t : String) (m : CommitManager)
    → IsConsistent m
    → IsConsistent (record m {
      prepare_votes =
          (if contains t m.prepare_votes then erase t m.prepare_votes else m.prepare_votes);
    })
forget_votes-IsConsistent t m h = record {
  locked = h.locked;
  voted = λ u w e. ground (arith, lookup-erase t u m.prepare_votes, h.voted u w);
  filed = h.filed;
}

commit_transaction-IsConsistent :
    (t : String) (m : CommitManager) → IsConsistent m → IsConsistent (commit_transaction t m).0
unfolding commit_transaction
commit_transaction-IsConsistent t m h = elim (Option-cases (lookup t m.transactions)) [
  | inl unknown ↦ rw (unknown, commit_transaction) h
  | inr (txn, found) ↦ elim (Bool-cases (is_prepare txn.status)) [
    | inl ready ↦
        rw (found, commit_transaction)
          (rw ready (set_status-IsConsistent t CommitPhase.commit txn m h found))
    | inr late ↦ rw (found, commit_transaction) (rw late h)
  ]
]

rollback_transaction-IsConsistent :
    (t reason : String) (m : CommitManager)
    → IsConsistent m
    → IsConsistent (rollback_transaction t reason m).0
unfolding rollback_transaction
rollback_transaction-IsConsistent t reason m h = elim (Option-cases (lookup t m.transactions)) [
  | inl unknown ↦ rw (unknown, rollback_transaction) h
  | inr (txn, found) ↦
      rw (found, rollback_transaction)
        (release-IsConsistent txn.account_id _
          (set_status-IsConsistent t CommitPhase.rollback txn m h found))
]

finalize_transaction-IsConsistent :
    (t : String) (m : CommitManager) → IsConsistent m → IsConsistent (finalize_transaction t m).0
unfolding finalize_transaction
finalize_transaction-IsConsistent t m h = elim (Option-cases (lookup t m.transactions)) [
  | inl unknown ↦ rw (unknown, finalize_transaction) h
  | inr (txn, found) ↦
      rw (found, finalize_transaction)
        (forget_votes-IsConsistent t _ (release-IsConsistent txn.account_id m h))
]

Step-IsConsistent : {u v : CommitManager} → Step u v → IsConsistent u → IsConsistent v
Step-IsConsistent {u} (created t now a x r new) h =
    create_transaction-IsConsistent t now a x r u new h
Step-IsConsistent {u} (vote_recorded t r v) h = record_prepare_vote-IsConsistent t r v u h
Step-IsConsistent {u} (was_committed t) h = commit_transaction-IsConsistent t u h
Step-IsConsistent {u} (was_rolled_back t reason) h = rollback_transaction-IsConsistent t reason u h
Step-IsConsistent {u} (was_finalized t) h = finalize_transaction-IsConsistent t u h

Reach-IsConsistent : {u v : CommitManager} → IsConsistent u → Reach u v → IsConsistent v
Reach-IsConsistent h here = h
Reach-IsConsistent h (next r s) = Step-IsConsistent s (Reach-IsConsistent h r)

-- Whatever calls are made of a new manager, if each new transaction has a fresh id: a locked
-- account is locked by a known transaction on that account, the votes kept beside the
-- transactions are the transactions' own, and each transaction is filed under its id.
pub Reach_init-IsConsistent : (n : String) (m : CommitManager) → Reach (init n) m → IsConsistent m
Reach_init-IsConsistent n m r = Reach-IsConsistent (IsConsistent-init n) r
