-- ===== src/Commit/Tests.antt =====
-- Inputs that meet the hypotheses of the theorems about the coordinator.
use mobile_money_simulator.Prelude.{
  String, ◌≡◌, refl, true, false, some, List, [], ◌∷◌, nat_eq, string_eq,
}
use mobile_money_simulator.Prelude.Int.{pos}
use mobile_money_simulator.Dict.{lookup}
use mobile_money_simulator.Commit.{
  CommitPhase, ReplicaVote, CommitTransaction, CommitManager, init, fresh_transaction,
  create_transaction, record_prepare_vote, can_commit, rollback_transaction,
}
use mobile_money_simulator.Commit.Votes.{record_votes}
use mobile_money_simulator.Commit.Locks.{
  IsConsistent, Reach, Step, here, next, Reach_init-IsConsistent,
}

abbrev votes : List (String × ReplicaVote)
votes = ("node_2", ReplicaVote.ack) ∷ ("node_3", ReplicaVote.ack) ∷ ("node_1", ReplicaVote.ack) ∷ []

abbrev created : CommitManager
created = (create_transaction "t1" 7 1 (pos 100) "r" (init "node_1")).0

one_locked : (create_transaction "t2" 8 1 (pos 5) "s" created).1.0 ≡ false
unfolding create_transaction
one_locked = refl

three_acks : (can_commit "t1" 3 (record_votes "t1" votes created)).0 ≡ true
unfolding create_transaction record_prepare_vote can_commit
three_acks = refl

reached :
    Reach
      (init "node_1")
      (rollback_transaction "t1" "late"
        (record_prepare_vote "t1" "node_2" ReplicaVote.nack created)).0
reached =
    next
      (next (next here (Step.created "t1" 7 1 (pos 100) "r" refl))
        (Step.vote_recorded "t1" "node_2" ReplicaVote.nack))
      (Step.was_rolled_back "t1" "late")

Reach_init-IsConsistent_example :
    IsConsistent
      (rollback_transaction "t1" "late"
        (record_prepare_vote "t1" "node_2" ReplicaVote.nack created)).0
Reach_init-IsConsistent_example =
    Reach_init-IsConsistent "node_1"
      (rollback_transaction "t1" "late"
        (record_prepare_vote "t1" "node_2" ReplicaVote.nack created)).0
      reached

-- The second transaction holds the lock that finalizing the first one gives up.
abbrev second : CommitManager
second = (create_transaction "t2" 9 1 (pos 50) "s" (rollback_transaction "t1" "no" created).0).0

abbrev rolled : CommitTransaction
rolled = record (fresh_transaction "t1" 7 "node_1" 1 (pos 100) "r") {
  status = CommitPhase.rollback;
}

held_by_second : lookup 1 second.account_locks ≡ some "t2"
unfolding create_transaction rollback_transaction
held_by_second = refl
