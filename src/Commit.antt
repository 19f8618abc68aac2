-- ===== src/Commit.antt =====
-- src/core/coordinated_commit.py: the coordinator's side of the two-phase commit,
-- `CommitTransaction` and `CoordinatedCommitManager`. An identifier from `uuid4` and a reading of
-- the clock are arguments. The share 0.66 of replicas is kept in hundredths. A text that a method
-- returns is a `Reply`, one constructor for each format; the log lines are left out.
pub mod Votes
pub mod Locks
pub mod Phases
mod Tests
use mobile_money_simulator.Prelude.{
  ℕ, ◌+◌, ◌*◌, ◌/◌, String, Bool, true, false, List, [], Option, none, some, ltb, nat_beq,
  if◌then◌else◌, nat_eq, string_eq,
}
use mobile_money_simulator.Prelude.Int.{ℤ}
use mobile_money_simulator.Dict.{Dict, lookup, contains, insert, erase}
use Prim.Native.Nat.{max}

pub data CommitPhase : Type 0 where
  prepare commit rollback abort : CommitPhase

pub data ReplicaVote : Type 0 where
  ack nack timeout : ReplicaVote

pub record CommitTransaction : Type 0 where
  pub transaction_id : String
  pub coordinator_id : String
  pub account_id : ℕ
  pub amount : ℤ
  pub request_id : String
  pub votes : Dict String ReplicaVote
  pub prepare_acks : ℕ
  pub prepare_nacks : ℕ
  pub prepare_timeouts : ℕ
  pub status : CommitPhase
  pub created_at : ℕ

pub record CommitManager : Type 0 where
  pub node_id : String
  pub timeout_sec : ℕ
  pub quorum_percent : ℕ
  pub transactions : Dict String CommitTransaction
  pub account_locks : Dict ℕ String
  pub prepare_votes : Dict String (Dict String ReplicaVote)

-- The texts that the methods return.
pub data Reply : Type 0 where
  account_locked transaction_created rolled_back : String → Reply
  not_found all_prepared committed finalized : Reply
  nack_votes timeout_votes : ℕ → Reply
  not_enough_acks : ℕ → ℕ → Reply
  not_in_prepare : CommitPhase → Reply

-- `CoordinatedCommitManager(node_id)`, with its default arguments
abbrev pub init : String → CommitManager
init node_id = record {
  node_id = node_id;
  timeout_sec = 5;
  quorum_percent = 66;
  transactions = [];
  account_locks = [];
  prepare_votes = [];
}

unfoldable pub is_prepared_success : ℕ → CommitTransaction → Bool
is_prepared_success required_acks txn =
    if ltb txn.prepare_acks required_acks then false else nat_beq txn.prepare_nacks 0

unfoldable pub add_vote : String → ReplicaVote → CommitTransaction → CommitTransaction
add_vote replica_id vote txn = record txn {
  votes = insert replica_id vote txn.votes;
  prepare_acks = elim vote [ ReplicaVote.ack ↦ txn.prepare_acks + 1 | _ ↦ txn.prepare_acks ];
  prepare_nacks = elim vote [ ReplicaVote.nack ↦ txn.prepare_nacks + 1 | _ ↦ txn.prepare_nacks ];
  prepare_timeouts = elim vote [
    | ReplicaVote.timeout ↦ txn.prepare_timeouts + 1
    | _ ↦ txn.prepare_timeouts
  ];
}

-- The transaction that `create_transaction` makes.
abbrev pub fresh_transaction : String → ℕ → String → ℕ → ℤ → String → CommitTransaction
fresh_transaction txn_id now node_id account_id amount request_id = record {
  transaction_id = txn_id;
  coordinator_id = node_id;
  account_id = account_id;
  amount = amount;
  request_id = request_id;
  votes = [];
  prepare_acks = 0;
  prepare_nacks = 0;
  prepare_timeouts = 0;
  status = CommitPhase.prepare;
  created_at = now;
}

-- The result is the success flag, the text and the transaction's id. The list of replicas that
-- the source takes is not used there.
unfoldable pub create_transaction :
    String → ℕ → ℕ → ℤ → String → CommitManager → CommitManager × (Bool × Reply × String)
create_transaction txn_id now account_id amount request_id m =
    elim (lookup account_id m.account_locks) [
      | some existing_txn ↦ (m, (false, account_locked existing_txn, ""))
      | none ↦ (
        record m {
          transactions =
              insert txn_id (fresh_transaction txn_id now m.node_id account_id amount request_id)
                m.transactions;
          account_locks = insert account_id txn_id m.account_locks;
          prepare_votes = insert txn_id [] m.prepare_votes;
        },
        (true, transaction_created txn_id, txn_id),
      )
    ]

-- `if transaction_id in self.prepare_votes: self.prepare_votes[transaction_id][replica_id] = vote`
abbrev pub note_vote :
    String
    → String
    → ReplicaVote
    → Dict String (Dict String ReplicaVote)
    → Dict String (Dict String ReplicaVote)
note_vote transaction_id replica_id vote all = elim (lookup transaction_id all) [
  | none ↦ all
  | some votes ↦ insert transaction_id (insert replica_id vote votes) all
]

unfoldable pub record_prepare_vote : String → String → ReplicaVote → CommitManager → CommitManager
unfolding add_vote
record_prepare_vote transaction_id replica_id vote m = elim (lookup transaction_id m.transactions) [
  | none ↦ m
  | some txn ↦ record m {
    transactions = insert transaction_id (add_vote replica_id vote txn) m.transactions;
    prepare_votes = note_vote transaction_id replica_id vote m.prepare_votes;
  }
]

-- max(1, int(total_replicas * self.quorum_percent))
abbrev pub required_acks : ℕ → CommitManager → ℕ
required_acks total_replicas m = max 1 (total_replicas * m.quorum_percent / 100)

-- The tests of `can_commit` on a known transaction.
unfoldable pub check_votes : ℕ → CommitTransaction → Bool × Reply
check_votes required txn =
    if ltb 0 txn.prepare_nacks
    then (false, nack_votes txn.prepare_nacks)
    else if ltb 0 txn.prepare_timeouts
    then (false, timeout_votes txn.prepare_timeouts)
    else if ltb txn.prepare_acks required
    then (false, not_enough_acks txn.prepare_acks required)
    else (true, all_prepared)

unfoldable pub can_commit : String → ℕ → CommitManager → Bool × Reply
unfolding check_votes
can_commit transaction_id total_replicas m = elim (lookup transaction_id m.transactions) [
  | none ↦ (false, not_found)
  | some txn ↦ check_votes (required_acks total_replicas m) txn
]

abbrev pub is_prepare : CommitPhase → Bool
is_prepare CommitPhase.prepare = true
is_prepare _ = false

unfoldable pub commit_transaction : String → CommitManager → CommitManager × (Bool × Reply)
commit_transaction transaction_id m = elim (lookup transaction_id m.transactions) [
  | none ↦ (m, (false, not_found))
  | some txn ↦
      if is_prepare txn.status
      then (
        record m {
          transactions =
              insert transaction_id (record txn { status = CommitPhase.commit }) m.transactions;
        },
        (true, committed),
      )
      else (m, (false, not_in_prepare txn.status))
]

-- `if account_id in self.account_locks: del self.account_locks[account_id]`
abbrev pub release : ℕ → Dict ℕ String → Dict ℕ String
release account_id locks = if contains account_id locks then erase account_id locks else locks

unfoldable pub rollback_transaction :
    String → String → CommitManager → CommitManager × (Bool × Reply)
rollback_transaction transaction_id reason m = elim (lookup transaction_id m.transactions) [
  | none ↦ (m, (false, not_found))
  | some txn ↦ (
    record m {
      transactions =
          insert transaction_id (record txn { status = CommitPhase.rollback }) m.transactions;
      account_locks = release txn.account_id m.account_locks;
    },
    (true, rolled_back reason),
  )
]

unfoldable pub finalize_transaction : String → CommitManager → CommitManager × (Bool × Reply)
finalize_transaction transaction_id m = elim (lookup transaction_id m.transactions) [
  | none ↦ (m, (false, not_found))
  | some txn ↦ (
    record m {
      account_locks = release txn.account_id m.account_locks;
      prepare_votes =
          (if contains transaction_id m.prepare_votes
            then erase transaction_id m.prepare_votes
            else m.prepare_votes);
    },
    (true, finalized),
  )
]

-- The transaction whose fields `get_transaction_status` lists.
unfoldable pub get_transaction_status : String → CommitManager → Option CommitTransaction
get_transaction_status transaction_id m = lookup transaction_id m.transactions
