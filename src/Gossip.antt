-- ===== src/Gossip.antt =====
-- src/distributed/gossip.py: `PeerInfo` and the state of a `GossipNode`.
-- A reading of the clock is an argument, a time is a count of microseconds. Of a message this
-- file keeps what `handle_heartbeat` reads; Messages and Wire have the payloads and the dicts. The
-- counters of a peer, which no method changes, and the log lines are left out.
pub mod Clocks
pub mod Messages
pub mod Peers
pub mod Tests
pub mod Wire
use mobile_money_simulator.Prelude.{
  ℕ, ◌+◌, ◌-◌, ◌*◌, String, Bool, true, false, List, [], ◌∷◌, ◌++◌, Option, none, some, ltb, leb,
  if◌then◌else◌, ◌==◌, elem, length, keep_if, string_eq,
}
use mobile_money_simulator.Dict.{Dict, lookup, contains, insert, erase, keys, values}
use mobile_money_simulator.VectorClock.{Clock, at}
use Prim.Native.Nat.{max}

pub data PeerStatus : Type 0 where
  online offline degraded : PeerStatus

pub record PeerInfo : Type 0 where
  pub server_id : String
  pub host : String
  pub port : ℕ
  pub status : PeerStatus
  pub last_contact : Option ℕ
  pub vector_clock : Clock

pub record GossipNode : Type 0 where
  pub server_id : String
  pub host : String
  pub port : ℕ
  pub heartbeat_timeout_sec : ℕ
  pub vector_clock : Clock
  pub peers : Dict String PeerInfo
  pub pending_event_ids : List String

pub record GossipMessage : Type 0 where
  pub source_server_id : String
  pub timestamp : ℕ
  pub vector_clock : Clock

-- now - last_contact, in seconds, below the timeout; a contact in the future counts as recent
unfoldable pub is_alive : ℕ → ℕ → PeerInfo → Bool
is_alive now heartbeat_timeout_sec p = elim p.last_contact [
  | none ↦ false
  | some t ↦ ltb now (t + heartbeat_timeout_sec * 1000000)
]

-- {s: 0 for s in server_ids}
abbrev pub zero_clock : List String → Clock → Clock
zero_clock [] c = c
zero_clock (s ∷ rest) c = zero_clock rest (insert s 0 c)

-- The loop over the configured peers in `_init_peers`.
abbrev pub configured :
    String → Clock → Dict String (String × ℕ) → Dict String PeerInfo → Dict String PeerInfo
configured self zeros [] peers = peers
configured self zeros ((server_id, (host, port)) ∷ rest) peers = configured self zeros rest (
    if server_id == self
    then peers
    else insert server_id
        (record {
          server_id = server_id;
          host = host;
          port = port;
          status = PeerStatus.offline;
          last_contact = none;
          vector_clock = zeros;
        })
        peers)

unfoldable pub new_node : String → String → ℕ → Dict String (String × ℕ) → ℕ → GossipNode
new_node server_id host port peer_servers heartbeat_timeout_sec =
    let zeros = zero_clock (keys peer_servers) [] in
    record {
      server_id = server_id;
      host = host;
      port = port;
      heartbeat_timeout_sec = heartbeat_timeout_sec;
      vector_clock = zeros;
      peers = configured server_id zeros peer_servers [];
      pending_event_ids = [];
    }

unfoldable pub add_peer : ℕ → String → String → ℕ → GossipNode → GossipNode
add_peer now server_id host port n =
    if server_id == n.server_id then n else if contains server_id n.peers then n else record n {
      peers =
          insert server_id
            (record {
              server_id = server_id;
              host = host;
              port = port;
              status = PeerStatus.online;
              last_contact = some now;
              vector_clock = zero_clock (keys n.vector_clock) [];
            })
            n.peers;
      vector_clock =
          if contains server_id n.vector_clock
          then n.vector_clock
          else insert server_id 0 n.vector_clock;
    }

unfoldable pub remove_peer : String → GossipNode → GossipNode
remove_peer server_id n =
    if contains server_id n.peers then record n { peers = erase server_id n.peers } else n

unfoldable pub increment_vector_clock : GossipNode → GossipNode
increment_vector_clock n = record n {
  vector_clock = insert n.server_id (at n.vector_clock n.server_id + 1) n.vector_clock;
}

-- The loop of `update_vector_clock`.
abbrev pub merge_clock : Clock → Clock → Clock
merge_clock [] c = c
merge_clock ((server_id, remote_version) ∷ rest) c =
    merge_clock rest (insert server_id (max (at c server_id) remote_version) c)

unfoldable pub update_vector_clock : Clock → GossipNode → GossipNode
unfolding increment_vector_clock
update_vector_clock remote_clock n =
    increment_vector_clock (record n { vector_clock = merge_clock remote_clock n.vector_clock })

-- A message from this node, with a copy of its clock.
unfoldable pub create_message : ℕ → GossipNode → GossipMessage
create_message now n = record {
  source_server_id = n.server_id;
  timestamp = now;
  vector_clock = n.vector_clock;
}

-- `message.vector_clock.copy() if message.vector_clock else peer.vector_clock`
abbrev pub heard : ℕ → Clock → PeerInfo → PeerInfo
heard now [] p = record p { last_contact = some now; status = PeerStatus.online }
heard now (entry ∷ c) p = record p {
  last_contact = some now;
  status = PeerStatus.online;
  vector_clock = entry ∷ c;
}

unfoldable pub handle_heartbeat : ℕ → GossipMessage → GossipNode → GossipNode
unfolding update_vector_clock
handle_heartbeat now message n = elim (lookup message.source_server_id n.peers) [
  | none ↦ n
  | some peer ↦ update_vector_clock message.vector_clock (record n {
    peers = insert message.source_server_id (heard now message.vector_clock peer) n.peers;
  })
]

unfoldable pub mark_peer_offline : String → GossipNode → GossipNode
mark_peer_offline server_id n = elim (lookup server_id n.peers) [
  | none ↦ n
  | some peer ↦ record n {
    peers = insert server_id (record peer { status = PeerStatus.offline }) n.peers;
  }
]

unfoldable pub get_healthy_peers : ℕ → GossipNode → List PeerInfo
get_healthy_peers now n = keep_if (is_alive now n.heartbeat_timeout_sec) (values n.peers)

unfoldable pub get_all_peers : GossipNode → List PeerInfo
get_all_peers n = values n.peers

unfoldable pub get_peer : String → GossipNode → Option PeerInfo
get_peer server_id n = lookup server_id n.peers

unfoldable pub queue_event_for_replication : String → GossipNode → GossipNode
queue_event_for_replication event_id n = record n {
  pending_event_ids =
      if elem event_id n.pending_event_ids
      then n.pending_event_ids
      else event_id ∷ n.pending_event_ids;
}

-- `set.discard`
abbrev pub discard : String → List String → List String
discard x [] = []
discard x (y ∷ ys) = let rest = discard x ys in if y == x then rest else y ∷ rest

unfoldable pub mark_event_replicated : String → GossipNode → GossipNode
mark_event_replicated event_id n = record n {
  pending_event_ids = discard event_id n.pending_event_ids;
}

unfoldable pub get_pending_events : GossipNode → List String
get_pending_events n = n.pending_event_ids

pub record GossipStats : Type 0 where
  pub healthy_peers : ℕ
  pub total_peers : ℕ
  pub pending_events : ℕ

unfoldable pub get_gossip_stats : ℕ → GossipNode → GossipStats
unfolding get_healthy_peers
get_gossip_stats now n = record {
  healthy_peers = length (get_healthy_peers now n);
  total_peers = length n.peers;
  pending_events = length n.pending_event_ids;
}
