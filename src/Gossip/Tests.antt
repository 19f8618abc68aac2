-- ===== src/Gossip/Tests.antt =====
-- A gossip node with a peer, and inputs that meet the hypotheses of the theorems about gossip.
use mobile_money_simulator.Prelude.{
  ◌+◌, ◌*◌, ◌≡◌, refl, true, [], ◌∷◌, none, some, ltb, nat_eq, string_eq,
}
use mobile_money_simulator.Dict.{lookup}
use mobile_money_simulator.VectorClock.{increment, update, happens_before}
use mobile_money_simulator.Gossip.{
  GossipNode, GossipMessage, PeerInfo, PeerStatus, is_alive, new_node, increment_vector_clock,
  update_vector_clock, heard, handle_heartbeat, get_peer,
}
use mobile_money_simulator.Gossip.Clocks.{update_vector_clock_refines, handle_heartbeat_outcome}
use mobile_money_simulator.Gossip.Peers.{IsConnected, Run, Step, Run-IsConnected}

abbrev pub peer : PeerInfo
peer = record {
  server_id = "s2";
  host = "localhost";
  port = 8002;
  status = PeerStatus.offline;
  last_contact = none;
  vector_clock = [];
}

abbrev pub node : GossipNode
node = record {
  server_id = "s1";
  host = "localhost";
  port = 8001;
  heartbeat_timeout_sec = 10;
  vector_clock = ("s1", 3) ∷ ("s2", 0) ∷ [];
  peers = ("s2", peer) ∷ [];
  pending_event_ids = [];
}

abbrev heartbeat : GossipMessage
heartbeat = record { source_server_id = "s2"; timestamp = 7; vector_clock = ("s2", 4) ∷ [] }

update_vector_clock_refines_example :
    ((increment_vector_clock node).vector_clock ≡ increment "s1" node.vector_clock)
    × ((update_vector_clock (("s2", 4) ∷ []) node).vector_clock
        ≡ increment "s1" (update (("s2", 4) ∷ []) node.vector_clock))
    × ((update_vector_clock (("s2", 4) ∷ []) node).peers ≡ node.peers)
    × ((update_vector_clock (("s2", 4) ∷ []) node).pending_event_ids ≡ [])
update_vector_clock_refines_example = update_vector_clock_refines (("s2", 4) ∷ []) node

handle_heartbeat_outcome_example :
    let n' = handle_heartbeat 8 heartbeat node in
    (lookup "s2" node.peers ≡ none → n' ≡ node)
    × ((p : PeerInfo)
        → lookup "s2" node.peers ≡ some p
        → (happens_before node.vector_clock n'.vector_clock ≡ true)
          × (happens_before (("s2", 4) ∷ []) n'.vector_clock ≡ true)
          × (get_peer "s2" n' ≡ some (heard 8 (("s2", 4) ∷ []) p))
          × ((heard 8 (("s2", 4) ∷ []) p).status ≡ PeerStatus.online)
          × (is_alive 9 10 (heard 8 (("s2", 4) ∷ []) p) ≡ ltb 9 (8 + 10 * 1000000)))
handle_heartbeat_outcome_example = handle_heartbeat_outcome 8 9 heartbeat node (refl, tt)

Run-IsConnected_example : IsConnected (
    handle_heartbeat 8 heartbeat (
      new_node "s1" "localhost" 8001
        (("s1", ("localhost", 8001)) ∷ ("s2", ("localhost", 8002)) ∷ [])
        10))
Run-IsConnected_example = Run-IsConnected (
    Run.later
      (Run.start "s1" "localhost" 8001 10
        (("s1", ("localhost", 8001)) ∷ ("s2", ("localhost", 8002)) ∷ []))
      (Step.heartbeat 8 heartbeat))
