-- ===== src/Quorum.antt =====
-- src/core/quorum_replication.py: votes for a withdrawal without a coordinator,
-- `QuorumTransaction` and `QuorumReplicationManager`; and the two tests of `QuorumValidator` in
-- src/core/quorum.py. An identifier from `uuid4` and a reading of the clock are arguments, a text
-- that a method returns is a `Reply`. The peers' `try` cannot fail in the model.
pub mod Majority
pub mod Locking
mod Tests
use mobile_money_simulator.Prelude.{
  ℕ, ◌+◌, ◌/◌, String, Bool, true, false, List, [], Option, none, some, ltb, leb, length,
  if◌then◌else◌, nat_eq, string_eq,
}
use mobile_money_simulator.Prelude.Int.{ℤ}
use mobile_money_simulator.Dict.{Dict, lookup, contains, insert, erase}
use Prim.Native.String.{◌++◌}

pub data QuorumVote : Type 0 where
  accept reject timeout : QuorumVote

pub record QuorumTransaction : Type 0 where
  pub transaction_id : String
  pub initiator_id : String
  pub account_id : ℕ
  pub amount : ℤ
  pub request_id : String
  pub votes : Dict String QuorumVote
  pub accept_votes : ℕ
  pub reject_votes : ℕ
  pub timeout_votes : ℕ
  pub timestamp : ℕ

unfoldable pub add_vote : String → QuorumVote → QuorumTransaction → QuorumTransaction
add_vote node_id vote txn = record txn {
  votes = insert node_id vote txn.votes;
  accept_votes = elim vote [ QuorumVote.accept ↦ txn.accept_votes + 1 | _ ↦ txn.accept_votes ];
  reject_votes = elim vote [ QuorumVote.reject ↦ txn.reject_votes + 1 | _ ↦ txn.reject_votes ];
  timeout_votes = elim vote [ QuorumVote.timeout ↦ txn.timeout_votes + 1 | _ ↦ txn.timeout_votes ];
}

pub record QuorumManager : Type 0 where
  pub node_id : String
  pub total_nodes : ℕ
  pub timeout_sec : ℕ
  pub quorum_size : ℕ
  pub transactions : Dict String QuorumTransaction
  pub transaction_votes : Dict String (Dict String QuorumVote)
  pub account_locks : Dict ℕ String

-- (total_nodes // 2) + 1
unfoldable pub majority : ℕ → ℕ
majority total_nodes = total_nodes / 2 + 1

-- `QuorumReplicationManager(node_id, quorum_size, total_nodes)`
unfoldable pub new_manager : String → Option ℕ → ℕ → QuorumManager
unfolding majority
new_manager node_id quorum_size total_nodes = record {
  node_id = node_id;
  total_nodes = total_nodes;
  timeout_sec = 5;
  quorum_size = elim quorum_size [ none ↦ majority total_nodes | some q ↦ q ];
  transactions = [];
  transaction_votes = [];
  account_locks = [];
}

-- The texts that the methods return.
pub data Reply : Type 0 where
  account_locked withdrawal_initiated rejected : String → Reply
  not_found quorum_not_achieved applied : Reply
  quorum_achieved not_enough_votes : ℕ → ℕ → Reply
  reject_votes : ℕ → Reply

-- The transaction that `initiate_withdrawal` makes.
abbrev pub fresh_transaction : String → ℕ → String → ℕ → ℤ → String → QuorumTransaction
fresh_transaction txn_id now node_id account_id amount request_id = record {
  transaction_id = txn_id;
  initiator_id = node_id;
  account_id = account_id;
  amount = amount;
  request_id = request_id;
  votes = [];
  accept_votes = 0;
  reject_votes = 0;
  timeout_votes = 0;
  timestamp = now;
}

-- The list of peers that the source takes is only logged there.
unfoldable pub initiate_withdrawal :
    String → ℕ → ℕ → ℤ → String → QuorumManager → QuorumManager × (Bool × Reply × String)
initiate_withdrawal txn_id now account_id amount request_id m =
    elim (lookup account_id m.account_locks) [
      | some existing_txn ↦ (m, (false, account_locked existing_txn, ""))
      | none ↦ (
        record m {
          transactions =
              insert txn_id (fresh_transaction txn_id now m.node_id account_id amount request_id)
                m.transactions;
          account_locks = insert account_id txn_id m.account_locks;
          transaction_votes = insert txn_id [] m.transaction_votes;
        },
        (true, withdrawal_initiated txn_id, txn_id),
      )
    ]

-- The peer's side: reject if the account is locked, else lock it for the vote and accept.
unfoldable pub request_withdrawal_from_peer :
    String → ℕ → QuorumManager → QuorumManager × QuorumVote
request_withdrawal_from_peer transaction_id account_id m =
    if contains account_id m.account_locks then (m, QuorumVote.reject) else (
      record m { account_locks = insert account_id ("temp_" ++ transaction_id) m.account_locks },
      QuorumVote.accept,
    )

abbrev pub note_vote :
    String
    → String
    → QuorumVote
    → Dict String (Dict String QuorumVote)
    → Dict String (Dict String QuorumVote)
note_vote transaction_id peer_id vote all = elim (lookup transaction_id all) [
  | none ↦ all
  | some votes ↦ insert transaction_id (insert peer_id vote votes) all
]

unfoldable pub record_peer_vote : String → String → QuorumVote → QuorumManager → QuorumManager
unfolding add_vote
record_peer_vote transaction_id peer_id vote m = elim (lookup transaction_id m.transactions) [
  | none ↦ m
  | some txn ↦ record m {
    transactions = insert transaction_id (add_vote peer_id vote txn) m.transactions;
    transaction_votes = note_vote transaction_id peer_id vote m.transaction_votes;
  }
]

-- The tests of `has_quorum` on a known transaction.
unfoldable pub check_quorum : ℕ → QuorumTransaction → Bool × Reply
check_quorum quorum_size txn =
    if leb quorum_size txn.accept_votes
    then (true, quorum_achieved txn.accept_votes quorum_size)
    else if ltb 0 txn.reject_votes
    then (false, reject_votes txn.reject_votes)
    else if ltb (length txn.votes) quorum_size
    then (false, not_enough_votes (length txn.votes) quorum_size)
    else (false, quorum_not_achieved)

unfoldable pub has_quorum : String → QuorumManager → Bool × Reply
unfolding check_quorum
has_quorum transaction_id m = elim (lookup transaction_id m.transactions) [
  | none ↦ (false, not_found)
  | some txn ↦ check_quorum m.quorum_size txn
]

abbrev pub release : ℕ → Dict ℕ String → Dict ℕ String
release account_id locks = if contains account_id locks then erase account_id locks else locks

unfoldable pub apply_withdrawal : String → QuorumManager → QuorumManager × (Bool × Reply)
apply_withdrawal transaction_id m = elim (lookup transaction_id m.transactions) [
  | none ↦ (m, (false, not_found))
  | some txn ↦
      (record m { account_locks = release txn.account_id m.account_locks }, (true, applied))
]

unfoldable pub reject_withdrawal : String → String → QuorumManager → QuorumManager × (Bool × Reply)
reject_withdrawal transaction_id reason m = elim (lookup transaction_id m.transactions) [
  | none ↦ (m, (false, not_found))
  | some txn ↦
      (record m { account_locks = release txn.account_id m.account_locks }, (true, rejected reason))
]

-- The transaction whose fields `get_transaction_status` lists.
unfoldable pub get_transaction_status : String → QuorumManager → Option QuorumTransaction
get_transaction_status transaction_id m = lookup transaction_id m.transactions

-- `QuorumValidator` of src/core/quorum.py: the healthy peers and the node itself make a quorum.
unfoldable pub can_reach_quorum : ℕ → ℕ → Bool
can_reach_quorum healthy_peers required_quorum = leb required_quorum (healthy_peers + 1)

unfoldable pub is_partition_tolerant : ℕ → ℕ → Bool
is_partition_tolerant reachable_servers required_quorum = leb required_quorum reachable_servers
