-- ===== src/Replication.antt =====
-- src/distributed/replication_manager.py: the state of a `ReplicationManager` and its queue.
-- Received events are in Replication/Receive, batches in Replication/Batch. The manager holds the
-- gossip node that the rest of the server uses. Threads, HTTP calls and log lines are left out.
pub mod Receive
pub mod Batch
pub mod Status
pub mod Delivery
pub mod Convergence
pub mod Runs
pub mod Loss
pub mod Outcome
pub mod Tests
use mobile_money_simulator.Prelude.{ℕ, String, List, [], ◌∷◌, ◌++◌}
use mobile_money_simulator.Dict.{Dict}
use mobile_money_simulator.Events.{Event}
use mobile_money_simulator.Gossip.{GossipNode, queue_event_for_replication}

pub record Manager : Type 0 where
  pub gossip_node : GossipNode
  pub server_id : String
  pub batch_size : ℕ
  pub pending_replication : List Event
  pub conflict_log : Dict String Event

unfoldable pub new_manager : GossipNode → String → ℕ → Manager
new_manager gossip_node server_id batch_size = record {
  gossip_node = gossip_node;
  server_id = server_id;
  batch_size = batch_size;
  pending_replication = [];
  conflict_log = [];
}

unfoldable pub queue_event : Event → Manager → Manager
unfolding queue_event_for_replication
queue_event e m = record m {
  pending_replication = m.pending_replication ++ e ∷ [];
  gossip_node = queue_event_for_replication e.event_id m.gossip_node;
}
