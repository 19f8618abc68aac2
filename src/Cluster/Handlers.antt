-- ===== src/Cluster/Handlers.antt =====
-- src/core/distributed_node.py: `withdraw`, `coordinated_withdraw` and `p2p_withdraw` of the node
-- with the id `self`; `started` is the time at which the transaction is created. A remote node
-- that is missing from the table is one whose calls raise.
use mobile_money_simulator.Prelude.{
  ℕ, String, Bool, true, false, not, List, [], ◌∷◌, ◌++◌, none, some, length, if◌then◌else◌, nat_eq,
  string_eq,
}
use mobile_money_simulator.Prelude.Int.{ℤ, pos, leb_ℤ}
use mobile_money_simulator.Dict.{lookup}
use mobile_money_simulator.Checkpoint.{Codec}
use mobile_money_simulator.Commit
use mobile_money_simulator.Commit.{
  ReplicaVote, create_transaction, record_prepare_vote, can_commit, commit_transaction,
  rollback_transaction, finalize_transaction,
}
use mobile_money_simulator.Quorum
use mobile_money_simulator.Quorum.{
  QuorumVote, initiate_withdrawal, record_peer_vote, has_quorum, apply_withdrawal,
  reject_withdrawal,
}
use mobile_money_simulator.Node
use mobile_money_simulator.Node.{
  Node, Now, withdraw_local, rollback_coordinated_withdraw, commit_coordinated_withdraw, p2p_apply,
}
use mobile_money_simulator.Cluster.{
  Cluster, Reply, on, synced, propagate_event, prepare_at, vote_at, coordinate, initiate,
}

-- A prepare request to one node, and the coordinator's note of its vote.
unfoldable pub request_prepare :
    (String → Now) → String → String → ℤ → String → ReplicaVote → String → Cluster → Cluster
request_prepare clock self txn_id amount request_id raised target c =
    let (c', vote) = on target raised (prepare_at c (clock target) txn_id amount request_id) c in
    (on self tt (coordinate (λ m. (record_prepare_vote txn_id target vote m, tt))) c').0

unfoldable pub prepare_remotes :
    (String → Now) → String → String → ℤ → String → List String → Cluster → Cluster
unfolding request_prepare
prepare_remotes clock self txn_id amount request_id [] c = c
prepare_remotes clock self txn_id amount request_id (remote ∷ rest) c =
    prepare_remotes clock self txn_id amount request_id rest
      (request_prepare clock self txn_id amount request_id ReplicaVote.timeout remote c)

-- `_rollback_coordinated_withdraw_everywhere`, over the remote nodes and then the node itself
unfoldable pub rollback_everywhere : String → List String → Cluster → Cluster
rollback_everywhere txn_id [] c = c
rollback_everywhere txn_id (target ∷ rest) c =
    rollback_everywhere txn_id rest
      (on target (false, Node.no_lock) (rollback_coordinated_withdraw txn_id) c).0

-- A request to one peer for its vote, and the initiator's note of it.
unfoldable pub request_vote : String → String → ℤ → QuorumVote → String → Cluster → Cluster
request_vote self txn_id amount raised target c =
    let (c', vote) = on target raised (vote_at c amount) c in
    (on self tt (initiate (λ m. (record_peer_vote txn_id target vote m, tt))) c').0

unfoldable pub request_votes : String → String → ℤ → List String → Cluster → Cluster
unfolding request_vote
request_votes self txn_id amount [] c = c
request_votes self txn_id amount (remote ∷ rest) c =
    request_votes self txn_id amount rest
      (request_vote self txn_id amount QuorumVote.timeout remote c)

-- Python's texts: of decimals and dates, of numbers, and of the two managers' reasons.
module _ (codec : Codec) (print : ℕ → String) (commit_text : Commit.Reply → String)
    (quorum_text : Quorum.Reply → String) where
  -- `withdraw` with the lock held.
  unfoldable pub withdraw_locked :
      Now → ℤ → String → String → Node → Cluster → Cluster × (Bool × Reply)
  unfolding on synced
  withdraw_locked now amount request_id self n c =
      let (c', (sent, reply)) =
        on self (none, Node.no_lock)
          (λ n. withdraw_local codec print now amount request_id (synced c n)) c in
      elim sent [
        | none ↦ (c', (false, Reply.local_reply reply))
        | some event ↦
            ((propagate_event event n.remote_nodes c').0, (true, Reply.local_reply reply))
      ]

  -- The guards that the three handlers share.
  abbrev pub guarded :
      ℤ → String → (Node → Cluster → Cluster × (Bool × Reply)) → Cluster → Cluster × (Bool × Reply)
  guarded amount self body c = elim (lookup self c) [
    | none ↦ (c, (false, Reply.no_node))
    | some n ↦
        if not n.lock_free
        then (c, (false, Reply.no_lock))
        else if leb_ℤ amount (pos 0)
        then (c, (false, Reply.not_positive))
        else body n c
  ]

  unfoldable pub withdraw : Now → ℤ → String → String → Cluster → Cluster × (Bool × Reply)
  unfolding withdraw_locked
  withdraw now amount request_id self c =
      guarded amount self (withdraw_locked now amount request_id self) c

  -- `_commit_coordinated_withdraw_everywhere`
  unfoldable pub commit_everywhere : String → List String → Cluster → Cluster
  commit_everywhere txn_id [] c = c
  commit_everywhere txn_id (target ∷ rest) c =
      commit_everywhere txn_id rest
        (on target (false, Node.no_lock) (commit_coordinated_withdraw codec print txn_id) c).0

  -- Steps 3 to 5 of `coordinated_withdraw`.
  unfoldable pub finish_coordinated :
      String → String → List String → Cluster → Cluster × (Bool × Reply)
  unfolding on commit_everywhere rollback_everywhere
  finish_coordinated txn_id self remotes c =
      let replica_ids = remotes ++ self ∷ [] in
      let (c', (can, reason)) =
        on self (false, Commit.not_found)
          (coordinate (λ m. (m, can_commit txn_id (length replica_ids) m))) c in
      if can
      then (let committed = commit_everywhere txn_id replica_ids c' in
          let noted =
            (on self (false, Commit.not_found) (coordinate (commit_transaction txn_id))
              committed).0 in
          (
            (on self (false, Commit.not_found) (coordinate (finalize_transaction txn_id)) noted).0,
            (true, Reply.processed txn_id),
          ))
      else (let undone = rollback_everywhere txn_id replica_ids c' in
          (
            (on self (false, Commit.not_found)
                (coordinate (rollback_transaction txn_id (commit_text reason))) undone).0,
            (false, Reply.commit_reply reason),
          ))

  unfoldable pub coordinated_locked :
      (String → Now) → ℕ → String → ℤ → String → String → Node → Cluster → Cluster × (Bool × Reply)
  unfolding on finish_coordinated prepare_remotes request_prepare
  coordinated_locked clock started new_id amount request_id self n c =
      let (c', (success, msg, txn_id)) =
        on self (false, Commit.not_found, "")
          (coordinate (create_transaction new_id started n.account_id amount request_id)) c in
      if success
      then finish_coordinated txn_id self n.remote_nodes (
          request_prepare clock self txn_id amount request_id ReplicaVote.nack self
            (prepare_remotes clock self txn_id amount request_id n.remote_nodes c'))
      else (c', (false, Reply.commit_reply msg))

  unfoldable pub coordinated_withdraw :
      (String → Now) → ℕ → String → ℤ → String → String → Cluster → Cluster × (Bool × Reply)
  unfolding coordinated_locked
  coordinated_withdraw clock started new_id amount request_id self c =
      guarded amount self (coordinated_locked clock started new_id amount request_id self) c

  -- Steps 3 to 5 of `p2p_withdraw`. The notice of a rollback to the peers has no effect there.
  unfoldable pub finish_p2p :
      Now → String → ℤ → String → String → List String → Cluster → Cluster × (Bool × Reply)
  unfolding on
  finish_p2p now txn_id amount request_id self remotes c =
      let (c', (agreed, reason)) =
        on self (false, Quorum.not_found) (initiate (λ m. (m, has_quorum txn_id m))) c in
      if agreed
      then (let (applied, sent) =
            on self none (p2p_apply codec print now txn_id amount request_id) c' in
          elim sent [
            | none ↦ (applied, (false, Reply.failed_to_apply))
            | some event ↦ (
              (on self (false, Quorum.not_found) (initiate (apply_withdrawal txn_id))
                  (propagate_event event remotes applied).0).0,
              (true, Reply.processed txn_id),
            )
          ])
      else (
        (on self (false, Quorum.not_found)
            (initiate (reject_withdrawal txn_id (quorum_text reason))) c').0,
        (false, Reply.quorum_reply reason),
      )

  unfoldable pub p2p_locked :
      Now → ℕ → String → ℤ → String → String → Node → Cluster → Cluster × (Bool × Reply)
  unfolding on finish_p2p request_votes request_vote
  p2p_locked now started new_id amount request_id self n c =
      let (c', (success, msg, txn_id)) =
        on self (false, Quorum.not_found, "")
          (initiate (initiate_withdrawal new_id started n.account_id amount request_id)) c in
      if success
      then finish_p2p now txn_id amount request_id self n.remote_nodes (
          request_vote self txn_id amount QuorumVote.reject self
            (request_votes self txn_id amount n.remote_nodes c'))
      else (c', (false, Reply.quorum_reply msg))

  unfoldable pub p2p_withdraw :
      Now → ℕ → String → ℤ → String → String → Cluster → Cluster × (Bool × Reply)
  unfolding p2p_locked
  p2p_withdraw now started new_id amount request_id self c =
      guarded amount self (p2p_locked now started new_id amount request_id self) c
