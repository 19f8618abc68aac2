-- ===== src/Commit/Votes.antt =====
-- How the votes that the coordinator has recorded decide `can_commit`.
use mobile_money_simulator.Prelude.{
  ℕ, ◌+◌, String, ◌≡◌, refl, ◌∙◌, inl, inr, Bool, true, false, ◌&&◌, some, List, [], ◌∷◌, arith,
  leb, length, Option-cases, nat_eq, string_eq, beq_refl,
}
use mobile_money_simulator.Prelude.Int.{ℤ}
use mobile_money_simulator.Dict.{lookup, lookup-insert}
use mobile_money_simulator.Commit.{
  ReplicaVote, CommitTransaction, CommitManager, add_vote, fresh_transaction, create_transaction,
  record_prepare_vote, required_acks, check_votes, can_commit,
}

-- The votes of one transaction, in the order in which they are recorded.
abbrev pub record_votes : String → List (String × ReplicaVote) → CommitManager → CommitManager
record_votes t [] m = m
record_votes t ((r, v) ∷ vs) m = record_votes t vs (record_prepare_vote t r v m)

abbrev add_votes : List (String × ReplicaVote) → CommitTransaction → CommitTransaction
add_votes [] txn = txn
add_votes ((r, v) ∷ vs) txn = add_votes vs (add_vote r v txn)

abbrev pub is_ack : ReplicaVote → Bool
is_ack ReplicaVote.ack = true
is_ack _ = false

abbrev pub all_acks : List (String × ReplicaVote) → Bool
all_acks [] = true
all_acks ((r, v) ∷ vs) = is_ack v && all_acks vs

abbrev acks : List (String × ReplicaVote) → ℕ
acks [] = 0
acks ((r, v) ∷ vs) = elim v [ ReplicaVote.ack ↦ acks vs + 1 | _ ↦ acks vs ]

abbrev nacks : List (String × ReplicaVote) → ℕ
nacks [] = 0
nacks ((r, v) ∷ vs) = elim v [ ReplicaVote.nack ↦ nacks vs + 1 | _ ↦ nacks vs ]

abbrev timeouts : List (String × ReplicaVote) → ℕ
timeouts [] = 0
timeouts ((r, v) ∷ vs) = elim v [ ReplicaVote.timeout ↦ timeouts vs + 1 | _ ↦ timeouts vs ]

add_votes_counts :
    (vs : List (String × ReplicaVote)) (txn : CommitTransaction)
    → ((add_votes vs txn).prepare_acks ≡ txn.prepare_acks + acks vs)
      × ((add_votes vs txn).prepare_nacks ≡ txn.prepare_nacks + nacks vs)
      × ((add_votes vs txn).prepare_timeouts ≡ txn.prepare_timeouts + timeouts vs)
unfolding add_vote
add_votes_counts [] txn = omega arith
add_votes_counts ((r, v) ∷ vs) txn = ground (arith, add_votes_counts vs (add_vote r v txn))

all_acks_counts :
    (vs : List (String × ReplicaVote))
    → (acks vs + nacks vs + timeouts vs ≡ length vs)
      × (all_acks vs ≡ leb (nacks vs + timeouts vs) 0)
all_acks_counts [] = ground arith
all_acks_counts ((r, v) ∷ vs) = ground (arith, all_acks_counts vs)

record_prepare_vote_known :
    (t r : String) (v : ReplicaVote) (m : CommitManager) (txn : CommitTransaction)
    → lookup t m.transactions ≡ some txn
    → (lookup t (record_prepare_vote t r v m).transactions ≡ some (add_vote r v txn))
      × ((record_prepare_vote t r v m).quorum_percent ≡ m.quorum_percent)
unfolding record_prepare_vote
record_prepare_vote_known t r v m txn found =
    rw (found, record_prepare_vote)
      (ground (arith, lookup-insert t t (add_vote r v txn) m.transactions, beq_refl t), refl)

record_votes_known :
    (t : String) (vs : List (String × ReplicaVote)) (m : CommitManager) (txn : CommitTransaction)
    → lookup t m.transactions ≡ some txn
    → (lookup t (record_votes t vs m).transactions ≡ some (add_votes vs txn))
      × ((record_votes t vs m).quorum_percent ≡ m.quorum_percent)
record_votes_known t [] m txn found = (found, refl)
record_votes_known t ((r, v) ∷ vs) m txn found =
    let m' = record_prepare_vote t r v m in
    let (found', same') = record_prepare_vote_known t r v m txn found in
    let (last, same) = record_votes_known t vs m' (add_vote r v txn) found' in (last, same ∙ same')

check_votes_counts :
    (n : ℕ) (vs : List (String × ReplicaVote)) (txn : CommitTransaction)
    → txn.prepare_acks ≡ 0
    → txn.prepare_nacks ≡ 0
    → txn.prepare_timeouts ≡ 0
    → (check_votes n (add_votes vs txn)).0 ≡ (all_acks vs && leb n (length vs))
unfolding check_votes
check_votes_counts n vs txn a b c = ground (arith, add_votes_counts vs txn, all_acks_counts vs)

create_transaction_known :
    (t : String) (now a : ℕ) (x : ℤ) (r : String) (m : CommitManager)
    → (create_transaction t now a x r m).1.0 ≡ true
    → (lookup t (create_transaction t now a x r m).0.transactions
        ≡ some (fresh_transaction t now m.node_id a x r))
      × ((create_transaction t now a x r m).0.quorum_percent ≡ m.quorum_percent)
unfolding create_transaction
create_transaction_known t now a x r m accepted = elim (Option-cases (lookup a m.account_locks)) [
  | inr (holder, e) ↦ ground arith
  | inl free ↦
      rw (free, create_transaction)
        (
          ground (
            arith,
            lookup-insert t t (fresh_transaction t now m.node_id a x r) m.transactions,
            beq_refl t,
          ),
          refl,
        )
]

-- After a transaction is created and votes are recorded for it, it can be committed exactly if
-- every vote is an ACK and there are at least as many as `max(1, 66% of the replicas)`.
pub can_commit_votes :
    (t : String) (now a : ℕ) (x : ℤ) (r : String) (m : CommitManager)
    (vs : List (String × ReplicaVote)) (n : ℕ)
    → (create_transaction t now a x r m).1.0 ≡ true
    → (can_commit t n (record_votes t vs (create_transaction t now a x r m).0)).0
      ≡ (all_acks vs && leb (required_acks n m) (length vs))
unfolding can_commit
can_commit_votes t now a x r m vs n accepted =
    let (known, same) = create_transaction_known t now a x r m accepted in
    let txn = fresh_transaction t now m.node_id a x r in
    let (found, same') = record_votes_known t vs (create_transaction t now a x r m).0 txn known in
    rw (found, can_commit)
      (rw (same', same) (check_votes_counts (required_acks n m) vs txn refl refl refl))
