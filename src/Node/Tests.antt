-- ===== src/Node/Tests.antt =====
-- Inputs that meet the hypotheses of the theorems about one node.
use mobile_money_simulator.Prelude.{
  ◌≡◌, refl, true, false, some, none, [], ◌⊎◌, ◌<◌, ltb, if◌then◌else◌, arith,
}
use mobile_money_simulator.Prelude.Int.{pos, ◌+ℤ◌, ◌-ℤ◌, ◌≤ℤ◌}
use mobile_money_simulator.EventLog.{EventType, TransactionEvent, add_event}
use mobile_money_simulator.EventLog.Tests.{event}
use mobile_money_simulator.Commit.{ReplicaVote}
use mobile_money_simulator.Checkpoint.{create_checkpoint}
use mobile_money_simulator.Checkpoint.Tests.{codec, unary}
use mobile_money_simulator.Quorum.{new_manager}
use mobile_money_simulator.Node.{
  EventIdGenerator, new_generator, next_id, Node, Now, Reply, create_event, optimized_balance,
  compute_current_balance, new_node, withdraw_local, prepare, rollback_coordinated_withdraw,
  commit_event, p2p_apply, commit_coordinated_withdraw,
}
use mobile_money_simulator.Node.Ids.{last_id, next_id_ascends}
use mobile_money_simulator.EventLog.{is_duplicate}
use mobile_money_simulator.Prelude.Int.{◌+ℤ◌}
use mobile_money_simulator.Node.Money.{IsKept, withdraw_local_outcome, IsStored}
use mobile_money_simulator.Node.Commits.{IsApplied, commit_event_outcome, p2p_apply_outcome}
use mobile_money_simulator.Node.Replica.{locked_total, prepare_reserves, rollback-prepare}
use mobile_money_simulator.Node.Reach.{Step, Run, IsSafe, Run-new_node-IsSafe}

abbrev generator : EventIdGenerator
generator = record { counter = 3; last_timestamp_ms = 1000; node_hash = 17 }

abbrev other_generator : EventIdGenerator
other_generator = record { counter = 3; last_timestamp_ms = 1000; node_hash = 18 }

next_id_ascends_example :
    let (g', event_id) = next_id 1000 generator in
    (last_id generator < event_id) × (last_id g' ≡ event_id) × (g'.node_hash ≡ 17)
next_id_ascends_example = next_id_ascends 1000 generator (omega arith) (omega arith) (omega arith)

-- A node with a balance of 100, and the instants of its calls.
abbrev pub now : Now
now = record { time_ms = 1000; utc = 1000000 }

abbrev pub node : Node
node = record {
  node_id = "node_1";
  account_id = 1;
  min_replicas = 1;
  event_log = record { events = []; max_event_id = 0; seen_request_ids = [] };
  storage = [];
  event_id_generator = new_generator 17;
  checkpoint = create_checkpoint 0 (pos 100) 0 "node_1" 1 (pos 0) (pos 0) 0;
  remote_nodes = [];
  lock_free = true;
  coordinated_commit_manager = mobile_money_simulator.Commit.init "node_1";
  locked_funds = [];
  prepared_transactions = [];
  quorum_manager = new_manager "node_1" none 1;
}

withdraw_local_outcome_example :
    let (n', (sent, reply)) = withdraw_local codec unary now (pos 30) "b" node in
    let event = (create_event now EventType.withdraw (pos 30) "b" node).1 in
    ((sent ≡ none) × IsKept node n')
    ⊎ ((sent ≡ some event)
        × (reply ≡ Reply.processed event.event_id)
        × (pos 30 ≤ℤ optimized_balance node)
        × (n'.checkpoint.balance ≡ optimized_balance node -ℤ pos 30)
        × (n'.checkpoint.total_withdrawals ≡ node.checkpoint.total_withdrawals +ℤ pos 30)
        × (n'.checkpoint.total_deposits ≡ node.checkpoint.total_deposits)
        × (n'.checkpoint.last_withdraw_amount ≡ pos 30)
        × (n'.checkpoint.last_event_id ≡ event.event_id)
        × (is_duplicate event node.event_log ≡ false)
        × (n'.event_log ≡ (add_event event node.event_log).0)
        × IsStored codec unary n')
withdraw_local_outcome_example = withdraw_local_outcome codec unary now (pos 30) "b" node

abbrev prepared_event : TransactionEvent
prepared_event = event 9000 EventType.withdraw 30 "c"

commit_event_outcome_example :
    let (n', (ok, reply)) = commit_event codec unary "t1" prepared_event node in
    let balance = compute_current_balance node -ℤ pos 30 in
    ((ok ≡ false) × IsKept node n')
    ⊎ ((ok ≡ true)
        × (n'.checkpoint.balance
            ≡ (if ltb node.checkpoint.last_event_id 9000 then balance -ℤ pos 30 else balance))
        × (n'.event_log ≡ (add_event prepared_event node.event_log).0)
        × IsStored codec unary n')
commit_event_outcome_example = commit_event_outcome codec unary "t1" prepared_event node refl

p2p_apply_outcome_example :
    let (n', sent) = p2p_apply codec unary now "t2" (pos 30) "d" node in
    let bare = (create_event now EventType.withdraw (pos 30) "d" node).1 in
    let event : TransactionEvent = record bare { transaction_id = "t2" } in
    ((sent ≡ none) × IsKept node n') ⊎ IsApplied codec unary event sent node n'
p2p_apply_outcome_example = p2p_apply_outcome codec unary now "t2" (pos 30) "d" node

prepare_reserves_example :
    let (n', vote) = prepare now "t1" (pos 30) "c" node in
    ((vote ≡ ReplicaVote.ack)
      × (locked_total node +ℤ pos 30 ≤ℤ optimized_balance node)
      × (locked_total n' ≡ locked_total node +ℤ pos 30)
      × (optimized_balance n' ≡ optimized_balance node))
    ⊎ ((vote ≡ ReplicaVote.nack)
        × (locked_total node +ℤ pos 30 ≤ℤ optimized_balance node → ⊥)
        × (n' ≡ node))
prepare_reserves_example = prepare_reserves now "t1" (pos 30) "c" node refl

rollback-prepare_example :
    let n' = (prepare now "t1" (pos 30) "c" node).0 in
    (rollback_coordinated_withdraw "t1" n').0
    ≡ record node { event_id_generator = n'.event_id_generator }
rollback-prepare_example = rollback-prepare now "t1" (pos 30) "c" node refl refl refl

abbrev pub started : Node
started = new_node codec unary 0 17 "node_1" 1 (pos 100) 1

abbrev prepared : Node
prepared = (prepare now "t1" (pos 30) "c" started).0

-- A prepare and its commit.
two_calls : Run codec unary started (commit_coordinated_withdraw codec unary "t1" prepared).0
two_calls = Run.next (Step.prepares now "t1" (pos 30) "c" started) (
    Run.next (Step.commits "t1" prepared)
      (Run.stop (commit_coordinated_withdraw codec unary "t1" prepared).0))

Run-new_node-IsSafe_example :
    IsSafe codec unary (commit_coordinated_withdraw codec unary "t1" prepared).0
Run-new_node-IsSafe_example = Run-new_node-IsSafe codec unary 0 17 "node_1" 1 (pos 100) 1 two_calls
