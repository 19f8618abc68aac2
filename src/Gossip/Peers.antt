-- ===== src/Gossip/Peers.antt =====
-- Which peers a gossip node keeps.
use mobile_money_simulator.Prelude.{
  ℕ, String, ◌≡◌, refl, inl, inr, true, false, some, List, [], ◌∷◌, arith, if◌then◌else◌, ◌==◌,
  elem, All, All-imp, Bool-cases, Option-cases, beq_eq, beq_refl, nat_eq, string_eq,
}
use mobile_money_simulator.Dict.{
  Dict, lookup, contains, insert, erase, keys, contains-insert, contains-lookup, All_lookup,
  All-insert, All-erase, contains-erase,
}
use mobile_money_simulator.VectorClock.{Clock, at}
use mobile_money_simulator.Gossip.{
  GossipNode, GossipMessage, PeerInfo, PeerStatus, zero_clock, configured, new_node, add_peer,
  remove_peer, increment_vector_clock, merge_clock, update_vector_clock, heard, handle_heartbeat,
  mark_peer_offline,
}
use Prim.Native.Nat.{max}

-- A peer is filed under its own id and has a slot in the node's clock.
abbrev pub IsFiled : Clock → String × PeerInfo → Type 0
IsFiled c (k, p) = (p.server_id ≡ k) × (contains k c ≡ true)

-- The node is not among its own peers, and all its peers are filed.
pub record IsConnected (n : GossipNode) : Type 0 where
  pub not_self : contains n.server_id n.peers ≡ false
  pub filed : All (IsFiled n.vector_clock) n.peers

-- A clock with more slots serves as well.
grown :
    (c c' : Clock) (d : Dict String PeerInfo)
    → ((k : String) → contains k c ≡ true → contains k c' ≡ true)
    → All (IsFiled c) d
    → All (IsFiled c') d
grown c c' d f h = All-imp d (λ x k. (k.0, f x.0 k.1)) h

contains-grown :
    (k j : String) (v : ℕ) (c : Clock) → contains k c ≡ true → contains k (insert j v c) ≡ true
contains-grown k j v c h = ground (arith, contains-insert j k v c, h)

merge_clock_grows :
    (r c : Clock) (k : String) → contains k c ≡ true → contains k (merge_clock r c) ≡ true
merge_clock_grows [] c k h = h
merge_clock_grows ((j, v) ∷ r) c k h =
    merge_clock_grows r (insert j (max (at c j) v) c) k (contains-grown k j (max (at c j) v) c h)

zero_clock-contains :
    (ids : List String) (c : Clock) (k : String)
    → contains k c ≡ true
    → contains k (zero_clock ids c) ≡ true
zero_clock-contains [] c k h = h
zero_clock-contains (s ∷ ids) c k h =
    zero_clock-contains ids (insert s 0 c) k (contains-grown k s 0 c h)

update_vector_clock-IsConnected :
    (remote : Clock) (n : GossipNode) → IsConnected n → IsConnected (update_vector_clock remote n)
unfolding update_vector_clock increment_vector_clock
update_vector_clock-IsConnected remote n h =
    let merged = merge_clock remote n.vector_clock in
    record {
      not_self = h.not_self;
      filed =
          grown n.vector_clock _ n.peers
            (λ k known.
              contains-grown k n.server_id _ merged
                (merge_clock_grows remote n.vector_clock k known))
            h.filed;
    }

increment_vector_clock-IsConnected :
    (n : GossipNode) → IsConnected n → IsConnected (increment_vector_clock n)
unfolding increment_vector_clock
increment_vector_clock-IsConnected n h = record {
  not_self = h.not_self;
  filed =
      grown n.vector_clock _ n.peers
        (λ k known. contains-grown k n.server_id _ n.vector_clock known) h.filed;
}

-- A known peer that is written again under its id leaves the node connected.
rewritten :
    (k : String) (p p' : PeerInfo) (n : GossipNode)
    → lookup k n.peers ≡ some p
    → p'.server_id ≡ p.server_id
    → IsConnected n
    → IsConnected (record n { peers = insert k p' n.peers })
rewritten k p p' n found same h =
    let old = All_lookup (IsFiled n.vector_clock) k p n.peers h.filed found in
    record {
      not_self =
          other k n.server_id p' n.peers h.not_self
            (ground (arith, contains-lookup k n.peers, found));
      filed = All-insert (IsFiled n.vector_clock) k p' n.peers (rw same old) h.filed;
    }
  where
    other :
        (k s : String) (p' : PeerInfo) (d : Dict String PeerInfo)
        → contains s d ≡ false
        → contains k d ≡ true
        → contains s (insert k p' d) ≡ false
    other k s p' d h c = ground (arith, contains-insert k s p' d, beq_eq k s)

heard_id : (now : ℕ) (c : Clock) (p : PeerInfo) → (heard now c p).server_id ≡ p.server_id
heard_id now [] p = refl
heard_id now (e ∷ c) p = refl

handle_heartbeat-IsConnected :
    (now : ℕ) (m : GossipMessage) (n : GossipNode)
    → IsConnected n
    → IsConnected (handle_heartbeat now m n)
unfolding handle_heartbeat
handle_heartbeat-IsConnected now m n h = elim (Option-cases (lookup m.source_server_id n.peers)) [
  | inl absent ↦ rw (absent, handle_heartbeat) h
  | inr (p, found) ↦
      rw (found, handle_heartbeat)
        (update_vector_clock-IsConnected m.vector_clock _ (
          rewritten m.source_server_id p (heard now m.vector_clock p) n found
            (heard_id now m.vector_clock p) h))
]

mark_peer_offline-IsConnected :
    (k : String) (n : GossipNode) → IsConnected n → IsConnected (mark_peer_offline k n)
unfolding mark_peer_offline
mark_peer_offline-IsConnected k n h = elim (Option-cases (lookup k n.peers)) [
  | inl absent ↦ rw (absent, mark_peer_offline) h
  | inr (p, found) ↦
      rw (found, mark_peer_offline)
        (rewritten k p (record p { status = PeerStatus.offline }) n found refl h)
]

remove_peer-IsConnected :
    (k : String) (n : GossipNode) → IsConnected n → IsConnected (remove_peer k n)
unfolding remove_peer
remove_peer-IsConnected k n h = elim (Bool-cases (contains k n.peers)) [
  | inl known ↦
      rw (known, remove_peer)
        (record {
          not_self = kept k n.server_id n.peers h.not_self;
          filed = All-erase (IsFiled n.vector_clock) k n.peers h.filed;
        })
  | inr unknown ↦ rw (unknown, remove_peer) h
]
  where
    kept :
        (k s : String) (d : Dict String PeerInfo)
        → contains s d ≡ false
        → contains s (erase k d) ≡ false
    kept k s d h = ground (arith, contains-erase k s d, h)

-- What `add_peer` makes of the clock.
slot : String → Clock → Clock
slot k c = if contains k c then c else insert k 0 c

slot-contains :
    (k j : String) (c : Clock)
    → (contains k (slot k c) ≡ true) × (contains j c ≡ true → contains j (slot k c) ≡ true)
unfolding slot
slot-contains k j c = elim (Bool-cases (contains k c)) [
  | inl t ↦ rw (t, slot) (t, λ known. known)
  | inr f ↦
      rw (f, slot) (ground (arith, contains-insert k k 0 c, beq_refl k), contains-grown j k 0 c)
]

add_peer-IsConnected :
    (now : ℕ) (k host : String) (port : ℕ) (n : GossipNode)
    → IsConnected n
    → IsConnected (add_peer now k host port n)
unfolding add_peer slot
add_peer-IsConnected now k host port n h = elim (Bool-cases (k == n.server_id)) [
  | inl self ↦ rw (self, add_peer) h
  | inr other ↦ elim (Bool-cases (contains k n.peers)) [
    | inl known ↦ rw (other, known, add_peer) h
    | inr new ↦
        rw (other, new, add_peer)
          (record {
            not_self = kept k n.server_id _ n.peers other h.not_self;
            filed =
                All-insert (IsFiled (slot k n.vector_clock)) k _ n.peers
                  (refl, (slot-contains k k n.vector_clock).0)
                  (grown n.vector_clock (slot k n.vector_clock) n.peers
                    (λ j. (slot-contains k j n.vector_clock).1) h.filed);
          })
  ]
]
  where
    kept :
        (k s : String) (p : PeerInfo) (d : Dict String PeerInfo)
        → (k == s) ≡ false
        → contains s d ≡ false
        → contains s (insert k p d) ≡ false
    kept k s p d e h = ground (arith, contains-insert k s p d)

zero_clock-covers :
    (ids : List String) (c : Clock) (k : String)
    → elem k ids ≡ true
    → contains k (zero_clock ids c) ≡ true
zero_clock-covers (s ∷ ids) c k h = elim (Bool-cases (k == s)) [
  | inl same ↦
      zero_clock-contains ids (insert s 0 c) k
        (ground (arith, contains-insert s k 0 c, beq_eq k s, beq_refl k))
  | inr other ↦ zero_clock-covers ids (insert s 0 c) k (ground arith)
]
zero_clock-covers [] c k h = cc

-- The loop over the configuration files every peer but the node itself.
configured-IsConnected :
    (self : String) (c : Clock) (d : Dict String (String × ℕ)) (peers : Dict String PeerInfo)
    → ((k : String) → elem k (keys d) ≡ true → contains k c ≡ true)
    → contains self peers ≡ false
    → All (IsFiled c) peers
    → (contains self (configured self c d peers) ≡ false)
      × All (IsFiled c) (configured self c d peers)
configured-IsConnected self c [] peers covered f h = (f, h)
configured-IsConnected self c ((k, (host, port)) ∷ d) peers covered f h =
    let rest : (j : String) → elem j (keys d) ≡ true → contains j c ≡ true =
      λ j known. covered j (ground (arith, known)) in
    elim (Bool-cases (k == self)) [
      | inl same ↦ rw (same, configured) (configured-IsConnected self c d peers rest f h)
      | inr other ↦
          rw (other, configured)
            (configured-IsConnected self c d _ rest (kept k self _ peers other f)
              (All-insert (IsFiled c) k _ peers (refl, covered k (ground (arith, beq_refl k))) h))
    ]
  where
    kept :
        (k s : String) (p : PeerInfo) (d : Dict String PeerInfo)
        → (k == s) ≡ false
        → contains s d ≡ false
        → contains s (insert k p d) ≡ false
    kept k s p d e h = ground (arith, contains-insert k s p d)

new_node-IsConnected :
    (server_id host : String) (port timeout : ℕ) (servers : Dict String (String × ℕ))
    → IsConnected (new_node server_id host port servers timeout)
unfolding new_node
new_node-IsConnected server_id host port timeout servers =
    let zeros = zero_clock (keys servers) [] in
    let (other, filed) =
      configured-IsConnected server_id zeros servers [] (zero_clock-covers (keys servers) []) refl
        tt in
    record { not_self = other; filed = filed }

-- A call that changes the peers or the clock of a node.
pub data Step (n : GossipNode) : GossipNode → Type 0 where
  peer_added : (now : ℕ) (k host : String) (port : ℕ) → Step n (add_peer now k host port n)
  peer_removed : (k : String) → Step n (remove_peer k n)
  peer_offline : (k : String) → Step n (mark_peer_offline k n)
  heartbeat : (now : ℕ) (m : GossipMessage) → Step n (handle_heartbeat now m n)
  clock_raised : Step n (increment_vector_clock n)
  clock_merged : (remote : Clock) → Step n (update_vector_clock remote n)

pub data Run : GossipNode → Type 0 where
  start :
      (server_id host : String) (port timeout : ℕ) (servers : Dict String (String × ℕ))
      → Run (new_node server_id host port servers timeout)
  later : {n m : GossipNode} → Run n → Step n m → Run m

pub Step-IsConnected : {n m : GossipNode} → Step n m → IsConnected n → IsConnected m
Step-IsConnected {n} (Step.peer_added now k host port) h = add_peer-IsConnected now k host port n h
Step-IsConnected {n} (Step.peer_removed k) h = remove_peer-IsConnected k n h
Step-IsConnected {n} (Step.peer_offline k) h = mark_peer_offline-IsConnected k n h
Step-IsConnected {n} (Step.heartbeat now m) h = handle_heartbeat-IsConnected now m n h
Step-IsConnected {n} (Step.clock_raised) h = increment_vector_clock-IsConnected n h
Step-IsConnected {n} (Step.clock_merged remote) h = update_vector_clock-IsConnected remote n h

-- A gossip node that has been started and has since added and removed peers, received heartbeats
-- and clocks, and marked peers offline, is not among its own peers; each of its peers is filed
-- under its own id and has a slot in the vector clock.
pub Run-IsConnected : {n : GossipNode} → Run n → IsConnected n
Run-IsConnected (Run.start server_id host port timeout servers) =
    new_node-IsConnected server_id host port timeout servers
Run-IsConnected (Run.later r st) = Step-IsConnected st (Run-IsConnected r)
