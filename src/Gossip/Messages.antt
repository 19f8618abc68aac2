-- ===== src/Gossip/Messages.antt =====
-- `GossipMessage` with its payloads, and the messages that a `GossipNode` creates. The data of an
-- event is `Event.to_dict`, which is never empty.
use mobile_money_simulator.Prelude.{ℕ, String, List, [], ◌∷◌, Option, none, some, string_eq}
use mobile_money_simulator.Dict.{values}
use mobile_money_simulator.VectorClock.{Clock}
use mobile_money_simulator.Events.Codec.{EventData}
use mobile_money_simulator.Gossip.{PeerInfo, PeerStatus, GossipNode}

pub data MessageType : Type 0 where
  heartbeat event_broadcast state_sync ack : MessageType

pub record FullMessage : Type 0 where
  pub message_type : MessageType
  pub source_server_id : String
  pub timestamp : ℕ
  pub vector_clock : Clock
  pub server_info : Option PeerInfo
  pub peer_list : Option (List PeerInfo)
  pub event_id : Option String
  pub event_data : Option EventData
  pub sync_events : Option (List EventData)
  pub sync_position : ℕ
  pub acked_event_ids : Option (List String)

-- A message of a type from this node, without a payload.
abbrev pub plain_message : MessageType → ℕ → GossipNode → FullMessage
plain_message t now n = record {
  message_type = t;
  source_server_id = n.server_id;
  timestamp = now;
  vector_clock = n.vector_clock;
  server_info = none;
  peer_list = none;
  event_id = none;
  event_data = none;
  sync_events = none;
  sync_position = 0;
  acked_event_ids = none;
}

-- `peer_list or list(self.peers.values())`
abbrev pub or_peers : Option (List PeerInfo) → GossipNode → List PeerInfo
or_peers none n = values n.peers
or_peers (some []) n = values n.peers
or_peers (some (p ∷ ps)) n = p ∷ ps

unfoldable pub create_heartbeat_message : ℕ → Option (List PeerInfo) → GossipNode → FullMessage
create_heartbeat_message now peer_list n = record (plain_message MessageType.heartbeat now n) {
  server_info = some (record {
    server_id = n.server_id;
    host = n.host;
    port = n.port;
    status = PeerStatus.online;
    last_contact = none;
    vector_clock = n.vector_clock;
  });
  peer_list = some (or_peers peer_list n);
}

unfoldable pub create_event_broadcast_message : ℕ → String → EventData → GossipNode → FullMessage
create_event_broadcast_message now event_id event_data n =
    record (plain_message MessageType.event_broadcast now n) {
      event_id = some event_id;
      event_data = some event_data;
    }

unfoldable pub create_ack_message : ℕ → List String → GossipNode → FullMessage
create_ack_message now acked_event_ids n = record (plain_message MessageType.ack now n) {
  acked_event_ids = some acked_event_ids;
}
