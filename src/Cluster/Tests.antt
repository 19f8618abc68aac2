-- ===== src/Cluster/Tests.antt =====
-- Inputs that meet the hypotheses of the theorems about nodes that call each other.
use mobile_money_simulator.Prelude.{
  String, ◌≡◌, refl, Bool, true, false, [], ◌∷◌, some, none, if◌then◌else◌, ◌==◌, string_eq,
}
use mobile_money_simulator.Prelude.Int.{pos, ◌+ℤ◌, ◌-ℤ◌}
use mobile_money_simulator.EventLog.{
  compute_balance_optimized, get_events_after, merge_events, add_loop,
}
use mobile_money_simulator.Checkpoint.{create_checkpoint}
use mobile_money_simulator.Checkpoint.Tests.{codec, unary}
use mobile_money_simulator.Commit
use mobile_money_simulator.Commit.{
  create_transaction, record_prepare_vote, add_vote, can_commit, check_votes, rollback_transaction,
}
use mobile_money_simulator.Quorum
use mobile_money_simulator.Quorum.{
  new_manager, majority, initiate_withdrawal, record_peer_vote, has_quorum, check_quorum,
  reject_withdrawal,
}
use mobile_money_simulator.Node.{
  Node, Now, merge_remote, optimized_balance, prepare, rollback_coordinated_withdraw,
}
use mobile_money_simulator.Node.Tests.{node, now, started}
use mobile_money_simulator.Node.Reach.{IsSafe, new_node-IsSafe}
use mobile_money_simulator.Cluster.{
  Cluster, on, collect, first_of_each, sync_events, synced, prepare_at,
}
use mobile_money_simulator.Cluster.Handlers.{
  request_prepare, prepare_remotes, rollback_everywhere, finish_coordinated, coordinated_locked,
  coordinated_withdraw,
}
use mobile_money_simulator.Cluster.Money.{SameMoney}
use mobile_money_simulator.Cluster.Failure.{coordinated_withdraw_fails-SameMoney}
use mobile_money_simulator.Cluster.Safety.{AllSafe}
use mobile_money_simulator.Cluster.Sync.{has_id, sync_events_covers}
use mobile_money_simulator.Prelude.Sort.{IsSorted}
use mobile_money_simulator.Prelude.{arith}
use mobile_money_simulator.EventLog.{EventType, get_event}
use mobile_money_simulator.EventLog.Tests.{event}
use mobile_money_simulator.Cluster.Runs.{Handled, Run, Run-AllSafe}

-- Two nodes with a balance of 100 each, and each the other's peer.
abbrev two_nodes : Cluster
two_nodes =
    ("node_1", record node { remote_nodes = "node_2" ∷ [] })
    ∷ ("node_2", record node { node_id = "node_2"; remote_nodes = "node_1" ∷ [] })
    ∷ []

abbrev clock : String → Now
clock s = now

abbrev commit_text : Commit.Reply → String
commit_text r = "no"

abbrev quorum_text : Quorum.Reply → String
quorum_text r = "no"

coordinated_withdraw_fails-SameMoney_example :
    SameMoney two_nodes
      (coordinated_withdraw codec unary commit_text quorum_text clock 0 "t1"
        (pos 500)
        "a"
        "node_1"
        two_nodes).0
unfolding coordinated_withdraw coordinated_locked prepare_remotes request_prepare prepare_at prepare
    finish_coordinated rollback_everywhere rollback_coordinated_withdraw create_transaction
    record_prepare_vote add_vote can_commit check_votes rollback_transaction on synced sync_events
    collect first_of_each merge_remote merge_events add_loop optimized_balance
    compute_balance_optimized get_events_after create_checkpoint ◌+ℤ◌ ◌-ℤ◌
coordinated_withdraw_fails-SameMoney_example =
    coordinated_withdraw_fails-SameMoney codec unary commit_text quorum_text clock 0 "t1" (pos 500)
      "a" "node_1" two_nodes refl

abbrev one_node : Cluster
one_node = ("node_1", started) ∷ []

one_node-AllSafe : AllSafe codec unary one_node
one_node-AllSafe = record {
  at = λ j n h.
      found ("node_1" == j) started n h (new_node-IsSafe codec unary 0 17 "node_1" 1 (pos 100) 1);
}
  where
    same : (x n : Node) → some x ≡ some n → x ≡ n
    same x n h = cc

    absurd : (n : Node) → none ≡ some n → IsSafe codec unary n
    absurd n h = cc

    found :
        (b : Bool) (x n : Node)
        → (if b then some x else none) ≡ some n
        → IsSafe codec unary x
        → IsSafe codec unary n
    found true x n h s = rw (← same x n h) s
    found false x n h s = absurd n h

Run-AllSafe_example :
    AllSafe codec unary
      (coordinated_withdraw codec unary commit_text quorum_text clock 0 "t1"
        (pos 30)
        "a"
        "node_1"
        one_node).0
Run-AllSafe_example =
    Run-AllSafe codec unary commit_text quorum_text
      (Run.next (Handled.coordinates clock 0 "t1" (pos 30) "a" "node_1" one_node) (
        Run.stop
          (coordinated_withdraw codec unary commit_text quorum_text clock 0 "t1" (pos 30) "a"
            "node_1" one_node).0))
      one_node-AllSafe

-- A peer with a deposit that node_1 does not have.
abbrev peer : Node
peer = record node {
  node_id = "node_2";
  event_log = record {
    events = (9000, event 9000 EventType.deposit 30 "d") ∷ [];
    max_event_id = 9000;
    seen_request_ids = "d" ∷ [];
  };
}

abbrev waiting : Node
waiting = record node { remote_nodes = "node_2" ∷ [] }

sync_events_covers_example :
    let c : Cluster = ("node_1", waiting) ∷ ("node_2", peer) ∷ [] in
    (has_id 9000 (sync_events waiting c) ≡ true)
    × IsSorted (λ e. e.event_id) (sync_events waiting c)
unfolding get_event create_checkpoint
sync_events_covers_example =
    sync_events_covers waiting peer "node_2" 9000 (event 9000 EventType.deposit 30 "d")
      (("node_1", waiting) ∷ ("node_2", peer) ∷ []) refl refl refl refl (omega arith)
