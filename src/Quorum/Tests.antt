-- ===== src/Quorum/Tests.antt =====
-- Inputs that meet the hypotheses of the theorems about the quorum.
use mobile_money_simulator.Prelude.{
  String, ◌≡◌, refl, true, false, none, List, [], ◌∷◌, nat_eq, string_eq,
}
use mobile_money_simulator.Prelude.Int.{pos}
use mobile_money_simulator.Quorum.{
  QuorumVote, QuorumManager, new_manager, initiate_withdrawal, has_quorum, record_peer_vote,
}
use mobile_money_simulator.Quorum.Majority.{voted, majorities_exclude}

abbrev manager : QuorumManager
manager = new_manager "node_1" none 3

abbrev votes : List (String × QuorumVote)
votes =
    ("node_2", QuorumVote.accept)
    ∷ ("node_3", QuorumVote.reject)
    ∷ ("node_1", QuorumVote.accept)
    ∷ []

abbrev other_votes : List (String × QuorumVote)
other_votes = ("node_2", QuorumVote.reject) ∷ ("node_3", QuorumVote.accept) ∷ []

abbrev nodes : List String
nodes = "node_1" ∷ "node_2" ∷ "node_3" ∷ []

-- A reject vote does not stand in the way of a quorum.
quorum_with_reject : (has_quorum "t1" (voted "t1" 7 1 (pos 100) "r" votes manager)).0 ≡ true
unfolding initiate_withdrawal record_peer_vote has_quorum new_manager
quorum_with_reject = refl

majorities_exclude_example :
    (has_quorum "t2" (voted "t2" 7 1 (pos 60) "s" other_votes (new_manager "node_3" none 3))).0
    ≡ false
majorities_exclude_example =
    majorities_exclude nodes "node_1" "node_3" "t1" "t2" 7 1 1 (pos 100) (pos 60) "r" "s" votes
      other_votes (refl, (refl, (refl, tt))) (refl, (refl, (refl, tt))) quorum_with_reject
