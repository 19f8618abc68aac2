-- ===== src/Cluster.antt =====
-- src/core/distributed_node.py: the handlers of `DistributedNode` in which nodes call each other,
-- over a table of the nodes by their ids. A node's `remote_nodes` are keys of the table, so that
-- two nodes that hold the same remote node share it. A handler runs in one thread: a node's lock
-- can be acquired for the whole of it or not at all, since the lock is reentrant, and no call
-- between nodes raises. `clock` gives each node's reading of the time.
pub mod Handlers
pub mod Sync
pub mod Money
pub mod Failure
pub mod Safety
pub mod Branches
pub mod Runs
pub mod Tests
use mobile_money_simulator.Prelude.{
  ℕ, ◌+◌, String, Bool, true, false, not, List, [], ◌∷◌, ◌++◌, Option, none, some, length,
  if◌then◌else◌, nat_eq, string_eq,
}
use mobile_money_simulator.Prelude.Int.{ℤ, pos, leb_ℤ}
use mobile_money_simulator.Dict.{Dict, lookup, contains, insert, values}
use mobile_money_simulator.EventLog.{TransactionEvent, get_events_after, by_id}
use mobile_money_simulator.Checkpoint.{Codec}
use mobile_money_simulator.Commit
use mobile_money_simulator.Commit.{
  ReplicaVote, create_transaction, record_prepare_vote, can_commit, commit_transaction,
  rollback_transaction, finalize_transaction,
}
use mobile_money_simulator.Quorum
use mobile_money_simulator.Quorum.{
  QuorumVote, initiate_withdrawal, record_peer_vote, has_quorum, apply_withdrawal,
  reject_withdrawal,
}
use mobile_money_simulator.Node
use mobile_money_simulator.Node.{
  Node, Now, merge_remote, compute_current_balance, receive_event, withdraw_local, prepare,
  rollback_coordinated_withdraw, commit_coordinated_withdraw, p2p_vote, p2p_apply,
}

abbrev pub Cluster : Type 0
Cluster = Dict String Node

-- A call of the node with the id `node_id`, and what it returns if there is no such node.
unfoldable pub on : {A : Type 0} → String → A → (Node → Node × A) → Cluster → Cluster × A
on node_id default f c = elim (lookup node_id c) [
  | none ↦ (c, default)
  | some n ↦ let (n', result) = f n in (insert node_id n' c, result)
]

-- What a handler returns: its success flag and its text.
pub data Reply : Type 0 where
  no_node no_lock not_positive failed_to_apply : Reply
  local_reply : Node.Reply → Reply
  commit_reply : Commit.Reply → Reply
  quorum_reply : Quorum.Reply → Reply
  processed : String → Reply

-- The loop of `_sync_events` over the remote nodes.
unfoldable pub collect : ℕ → List String → Cluster → List TransactionEvent
collect after [] c = []
collect after (remote ∷ rest) c =
    let later = collect after rest c in
    elim (lookup remote c) [ none ↦ later | some n ↦ get_events_after after n.event_log ++ later ]

-- Its loop that keeps the first event of each id.
unfoldable pub first_of_each :
    List TransactionEvent → Dict ℕ TransactionEvent → Dict ℕ TransactionEvent
first_of_each [] seen_ids = seen_ids
first_of_each (event ∷ rest) seen_ids =
    first_of_each rest
      (if contains event.event_id seen_ids then seen_ids else insert event.event_id event seen_ids)

unfoldable pub sync_events : Node → Cluster → List TransactionEvent
sync_events n c =
    by_id (values (first_of_each (collect n.checkpoint.last_event_id n.remote_nodes c) []))

-- The first steps of a handler: sync from the remote nodes and merge.
unfoldable pub synced : Cluster → Node → Node
synced c n = merge_remote (sync_events n c) n

unfoldable pub propagate_event : TransactionEvent → List String → Cluster → Cluster × ℕ
unfolding on
propagate_event event [] c = (c, 0)
propagate_event event (remote ∷ rest) c =
    let (c', received) = on remote false (receive_event event) c in
    let (c'', count) = propagate_event event rest c' in (c'', if received then count + 1 else count)

unfoldable pub get_balance : String → Cluster → Cluster × Option ℤ
unfolding on synced
get_balance node_id c =
    on node_id none
      (λ n.
        if n.lock_free
        then (let n' : Node = synced c n in (n', some (compute_current_balance n')))
        else (n, some n.checkpoint.balance))
      c

-- `prepare_for_coordinated_withdraw`
unfoldable pub prepare_at : Cluster → Now → String → ℤ → String → Node → Node × ReplicaVote
unfolding synced
prepare_at c now transaction_id amount request_id n =
    if n.lock_free
    then prepare now transaction_id amount request_id (synced c n)
    else (n, ReplicaVote.nack)

-- `p2p_receive_withdrawal_request`
unfoldable pub vote_at : Cluster → ℤ → Node → Node × QuorumVote
unfolding synced
vote_at c amount n =
    if n.lock_free
    then (let n' : Node = synced c n in (n', p2p_vote amount n'))
    else (n, QuorumVote.reject)

-- The coordinator's own state, `self.coordinated_commit_manager`.
abbrev pub coordinate :
    {A : Type 0} → (Commit.CommitManager → Commit.CommitManager × A) → Node → Node × A
coordinate f n =
    let (m, a) = f n.coordinated_commit_manager in (record n { coordinated_commit_manager = m }, a)

-- The initiator's own state, `self.quorum_manager`.
abbrev pub initiate :
    {A : Type 0} → (Quorum.QuorumManager → Quorum.QuorumManager × A) → Node → Node × A
initiate f n = let (m, a) = f n.quorum_manager in (record n { quorum_manager = m }, a)
