-- ===== src/Gossip/Clocks.antt =====
-- The clock of a gossip node as a `VectorClock`.
use mobile_money_simulator.Prelude.{
  ℕ, ◌+◌, ◌*◌, String, ◌≡◌, refl, inl, inr, true, false, none, some, [], ◌∷◌, ltb, arith,
  if◌then◌else◌, ◌==◌, Bool-cases, beq_refl, nat_eq, string_eq,
}
use mobile_money_simulator.Dict.{lookup, contains, insert, IsNodup, lookup-insert, contains-lookup}
use mobile_money_simulator.VectorClock.{Clock, at, increment, update, happens_before}
use mobile_money_simulator.VectorClock.Causality.{receive_happens_before}
use mobile_money_simulator.Gossip.{
  GossipNode, GossipMessage, PeerInfo, PeerStatus, is_alive, increment_vector_clock, merge_clock,
  update_vector_clock, heard, handle_heartbeat, get_peer,
}
use Prim.Native.Nat.{max}

insert-insert : (k : String) (n m : ℕ) (c : Clock) → insert k n (insert k m c) ≡ insert k n c
insert-insert k n m [] = rw (beq_refl k) refl
insert-insert k n m ((j, v) ∷ c) = elim (Bool-cases (j == k)) [
  | inl t ↦ rw (t, insert) (rw t refl)
  | inr f ↦ rw (f, insert) (rw (f, insert-insert k n m c) refl)
]

at-absent :
    (k : String) (c : Clock) → contains k c ≡ false → (at c k ≡ 0) × (at (insert k 0 c) k ≡ 0)
at-absent k c h =
    (ground (arith, contains-lookup k c h), ground (arith, lookup-insert k k 0 c, beq_refl k))

-- A node's step is that of a vector clock.
pub increment_vector_clock_increments :
    (n : GossipNode)
    → (increment_vector_clock n).vector_clock ≡ increment n.server_id n.vector_clock
unfolding increment_vector_clock increment
increment_vector_clock_increments n = stepped n.server_id n.vector_clock
  where
    stepped :
        (k : String) (c : Clock)
        → insert k (at c k + 1) c
          ≡ insert k
              (at (if contains k c then c else insert k 0 c) k + 1)
              (if contains k c then c else insert k 0 c)
    stepped k c = elim (Bool-cases (contains k c)) [
      | inl known ↦ rw known refl
      | inr new ↦
          let (old, zeroed) = at-absent k c new in rw (new, old, zeroed, insert-insert k 1 0 c) refl
    ]

merge_clock_updates : (r c : Clock) → merge_clock r c ≡ update r c
unfolding update
merge_clock_updates [] c = refl
merge_clock_updates ((k, v) ∷ r) c = merge_clock_updates r (insert k (max (at c k) v) c)

-- The gossip node, which keeps its clock as a plain dict, computes what `VectorClock` does:
-- `increment_vector_clock` is its `increment`, and `update_vector_clock` is its `update` with the
-- received clock and then its `increment`; the peers and the pending events stay.
pub update_vector_clock_refines :
    (remote : Clock) (n : GossipNode)
    → ((increment_vector_clock n).vector_clock ≡ increment n.server_id n.vector_clock)
      × ((update_vector_clock remote n).vector_clock
          ≡ increment n.server_id (update remote n.vector_clock))
      × ((update_vector_clock remote n).peers ≡ n.peers)
      × ((update_vector_clock remote n).pending_event_ids ≡ n.pending_event_ids)
unfolding update_vector_clock increment_vector_clock
update_vector_clock_refines remote n = (
  increment_vector_clock_increments n,
  rw (← merge_clock_updates remote n.vector_clock) (
      increment_vector_clock_increments
        (record n { vector_clock = merge_clock remote n.vector_clock })),
  refl,
  refl,
)

heard_alive :
    (now at_time timeout : ℕ) (c : Clock) (p : PeerInfo)
    → ((heard now c p).status ≡ PeerStatus.online)
      × (is_alive at_time timeout (heard now c p) ≡ ltb at_time (now + timeout * 1000000))
unfolding is_alive
heard_alive now at_time timeout [] p = (refl, refl)
heard_alive now at_time timeout (e ∷ c) p = (refl, refl)

-- A heartbeat from an unknown server changes nothing. After one from a known peer, both the node's
-- old clock and the sender's clock happened before the node's clock, and the peer is online and
-- counts as alive until the timeout has passed. A clock holds each server once.
pub handle_heartbeat_outcome :
    (now at_time : ℕ) (m : GossipMessage) (n : GossipNode)
    → IsNodup m.vector_clock
    → let n' = handle_heartbeat now m n in
      (lookup m.source_server_id n.peers ≡ none → n' ≡ n)
      × ((p : PeerInfo)
          → lookup m.source_server_id n.peers ≡ some p
          → (happens_before n.vector_clock n'.vector_clock ≡ true)
            × (happens_before m.vector_clock n'.vector_clock ≡ true)
            × (get_peer m.source_server_id n' ≡ some (heard now m.vector_clock p))
            × ((heard now m.vector_clock p).status ≡ PeerStatus.online)
            × (is_alive at_time n.heartbeat_timeout_sec (heard now m.vector_clock p)
                ≡ ltb at_time (now + n.heartbeat_timeout_sec * 1000000)))
unfolding handle_heartbeat get_peer
handle_heartbeat_outcome now at_time m n h = (
  λ absent. rw (absent, handle_heartbeat) refl,
  λ p found.
      let n1 = record n {
        peers = insert m.source_server_id (heard now m.vector_clock p) n.peers;
      } in
      let (_, clock, peers, _) = update_vector_clock_refines m.vector_clock n1 in
      let (before, after) = receive_happens_before n.server_id m.vector_clock n.vector_clock h in
      let (status, alive) = heard_alive now at_time n.heartbeat_timeout_sec m.vector_clock p in
      rw (found, handle_heartbeat)
        (
          rw clock before,
          rw clock after,
          rw
              (
                peers,
                lookup-insert m.source_server_id m.source_server_id (heard now m.vector_clock p)
                    n.peers,
                beq_refl m.source_server_id,
              )
              refl,
          status,
          alive,
        ),
)
