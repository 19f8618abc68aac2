-- ===== src/Node.antt =====
-- src/core/distributed_node.py: what one `DistributedNode` does to its own state, given the
-- events that a sync brought from the other nodes. The handlers that talk to the other nodes are
-- in Cluster. Each call runs alone; `lock_free` says whether the node's lock can be acquired, the
-- clock's readings are arguments, and so is the number that `hash` gives for the node's id. A text
-- that a method returns is a `Reply`. The time of the last withdrawal is its event's.
pub mod Ids
pub mod Money
pub mod Commits
pub mod Replica
pub mod Reserved
pub mod Reach
pub mod Tests
use mobile_money_simulator.Prelude.{
  ℕ, ◌+◌, ◌*◌, ◌%◌, String, Bool, true, false, not, List, [], ◌∷◌, Option, none, some, nat_beq,
  elem, if◌then◌else◌, nat_eq, string_eq,
}
use mobile_money_simulator.Prelude.Int.{ℤ, pos, ◌+ℤ◌, ◌-ℤ◌, ltb_ℤ, leb_ℤ}
use mobile_money_simulator.Dict.{Dict, lookup, contains, insert, erase, values}
use mobile_money_simulator.EventLog.{
  EventType, TransactionEvent, EventLog, empty, add_event, merge_events, compute_balance,
  compute_balance_optimized,
}
use mobile_money_simulator.Checkpoint.{
  Codec, Checkpoint, Storage, save_checkpoint, get_or_create_checkpoint,
}
use mobile_money_simulator.Commit
use mobile_money_simulator.Commit.{CommitManager, ReplicaVote}
use mobile_money_simulator.Quorum.{QuorumManager, QuorumVote, new_manager}
use Prim.Native.String.{◌++◌}

pub record EventIdGenerator : Type 0 where
  pub counter : ℕ
  pub last_timestamp_ms : ℕ
  -- hash(self.node_id) & 0xFF
  pub node_hash : ℕ

abbrev pub new_generator : ℕ → EventIdGenerator
new_generator hash = record { counter = 0; last_timestamp_ms = 0; node_hash = hash % 256 }

-- The time shifted left by 16 bits, the node's byte by 8, and the low byte of the counter: the
-- three parts share no bit, so the bitwise or is their sum.
abbrev pub compose_id : ℕ → ℕ → ℕ → ℕ
compose_id current_time_ms node_hash counter =
    current_time_ms * 65536 + node_hash * 256 + counter % 256

unfoldable pub next_id : ℕ → EventIdGenerator → EventIdGenerator × ℕ
next_id current_time_ms g =
    let g' : EventIdGenerator =
      if nat_beq current_time_ms g.last_timestamp_ms
      then record g { counter = g.counter + 1 }
      else record g { counter = 0; last_timestamp_ms = current_time_ms } in
    (g', compose_id current_time_ms g.node_hash g'.counter)

pub record Node : Type 0 where
  pub node_id : String
  pub account_id : ℕ
  pub min_replicas : ℕ
  pub event_log : EventLog
  pub storage : Storage
  pub event_id_generator : EventIdGenerator
  pub checkpoint : Checkpoint
  pub remote_nodes : List String
  pub lock_free : Bool
  pub coordinated_commit_manager : CommitManager
  pub locked_funds : Dict String ℤ
  pub prepared_transactions : Dict String TransactionEvent
  pub quorum_manager : QuorumManager

-- The readings of the clock that one call takes: `time.time()` in milliseconds, and `utcnow()`.
pub record Now : Type 0 where
  pub time_ms : ℕ
  pub utc : ℕ

pub data Reply : Type 0 where
  no_lock deposit_not_positive withdrawal_not_positive event_rejected : Reply
  processed : ℕ → Reply
  insufficient : ℤ → ℤ → Reply
  no_prepared failed_to_add withdrawal_committed withdrawal_rolled_back : Reply

unfoldable pub create_event : Now → EventType → ℤ → String → Node → Node × TransactionEvent
unfolding next_id
create_event now event_type amount request_id n =
    let (g, event_id) = next_id now.time_ms n.event_id_generator in
    (
      record n { event_id_generator = g },
      record {
        event_id = event_id;
        event_type = event_type;
        amount = amount;
        account_id = n.account_id;
        timestamp = now.utc;
        node_id = n.node_id;
        request_id = request_id;
        is_applied = false;
        version = "v1";
        transaction_id = "";
      },
    )

-- The balance by which a withdrawal is judged, and the one that a client is told.
unfoldable pub optimized_balance : Node → ℤ
optimized_balance n =
    (compute_balance_optimized n.checkpoint.balance n.checkpoint.last_event_id
      n.checkpoint.last_withdraw_amount n.event_log).balance

unfoldable pub compute_current_balance : Node → ℤ
compute_current_balance n =
    compute_balance n.checkpoint.balance n.checkpoint.last_event_id n.event_log

-- The events that a sync brought go into the log.
unfoldable pub merge_remote : List TransactionEvent → Node → Node
merge_remote remote_events n = record n { event_log = (merge_events remote_events n.event_log).0 }

-- sum(self.locked_funds.values())
abbrev pub sum : List ℤ → ℤ
sum [] = pos 0
sum (x ∷ xs) = x +ℤ sum xs

-- The checkpoint after a withdrawal, in `withdraw`, `commit_coordinated_withdraw` and
-- `p2p_withdraw`, from the balance that the method computed.
abbrev pub withdrawn_checkpoint : ℤ → ℤ → TransactionEvent → Checkpoint → Checkpoint
withdrawn_checkpoint current_balance amount event c = record c {
  balance = current_balance -ℤ amount;
  last_event_id = event.event_id;
  total_withdrawals = c.total_withdrawals +ℤ amount;
  event_count = c.event_count + 1;
  last_withdraw_amount = amount;
  last_withdraw_event_id = event.event_id;
  last_withdraw_timestamp = event.timestamp;
}

abbrev pub deposited_checkpoint : ℤ → TransactionEvent → Checkpoint → Checkpoint
deposited_checkpoint amount event c = record c {
  balance = c.balance +ℤ amount;
  last_event_id = event.event_id;
  total_deposits = c.total_deposits +ℤ amount;
  event_count = c.event_count + 1;
}

-- The replica's part of the prepare phase, on the synced node: vote on the balance that is left
-- beside the locked funds, and on ACK reserve the amount and keep the event for the commit.
unfoldable pub prepare : Now → String → ℤ → String → Node → Node × ReplicaVote
unfolding create_event optimized_balance
prepare now transaction_id amount request_id n =
    if ltb_ℤ (optimized_balance n -ℤ sum (values n.locked_funds)) amount
    then (n, ReplicaVote.nack)
    else (let (n', event) = create_event now EventType.withdraw amount request_id n in
        (
          record n' {
            locked_funds = insert transaction_id amount n.locked_funds;
            prepared_transactions =
                insert transaction_id (record event { transaction_id = transaction_id })
                  n.prepared_transactions;
          },
          ReplicaVote.ack,
        ))

unfoldable pub rollback_coordinated_withdraw : String → Node → Node × (Bool × Reply)
rollback_coordinated_withdraw transaction_id n =
    if n.lock_free
    then (
      record n {
        locked_funds =
            (if contains transaction_id n.locked_funds
              then erase transaction_id n.locked_funds
              else n.locked_funds);
        prepared_transactions =
            (if contains transaction_id n.prepared_transactions
              then erase transaction_id n.prepared_transactions
              else n.prepared_transactions);
      },
      (true, withdrawal_rolled_back),
    )
    else (n, (false, no_lock))

-- A peer's vote in the quorum protocol, on the synced node.
unfoldable pub p2p_vote : ℤ → Node → QuorumVote
unfolding optimized_balance
p2p_vote amount n =
    if ltb_ℤ (optimized_balance n) amount then QuorumVote.reject else QuorumVote.accept

unfoldable pub receive_event : TransactionEvent → Node → Node × Bool
receive_event event n =
    if n.lock_free
    then (let (log, added) = add_event event n.event_log in (record n { event_log = log }, added))
    else (n, false)

-- f"account_{account_id}_node_{node_id}_checkpoint", where `print` gives a number's digits
abbrev pub checkpoint_key : (ℕ → String) → ℕ → String → String
checkpoint_key print account_id node_id =
    "account_" ++ (print account_id ++ ("_node_" ++ (node_id ++ "_checkpoint")))

-- `codec` and `print` are Python's texts of decimals, dates and numbers.
module _ (codec : Codec) (print : ℕ → String) where
  -- `DistributedNode(node_id, account_id, initial_balance, min_replicas)`
  unfoldable pub new_node : ℕ → ℕ → String → ℕ → ℤ → ℕ → Node
  unfolding new_manager get_or_create_checkpoint
  new_node now hash node_id account_id initial_balance min_replicas =
      let (storage, checkpoint) =
        get_or_create_checkpoint codec now (checkpoint_key print account_id node_id) node_id
          account_id initial_balance [] in
      record {
        node_id = node_id;
        account_id = account_id;
        min_replicas = min_replicas;
        event_log = empty;
        storage = storage;
        event_id_generator = new_generator hash;
        checkpoint = checkpoint;
        remote_nodes = [];
        lock_free = true;
        coordinated_commit_manager = Commit.init node_id;
        locked_funds = [];
        prepared_transactions = [];
        quorum_manager = new_manager node_id none 1;
      }

  -- The new checkpoint, in memory and in storage.
  unfoldable pub set_checkpoint : Checkpoint → Node → Node
  set_checkpoint c n = record n {
    checkpoint = c;
    storage = save_checkpoint codec c (checkpoint_key print n.account_id n.node_id) n.storage;
  }

  unfoldable pub deposit : Now → ℤ → String → Node → Node × (Bool × Reply)
  unfolding create_event set_checkpoint
  deposit now amount request_id n =
      if not n.lock_free
      then (n, (false, no_lock))
      else if leb_ℤ amount (pos 0)
      then (n, (false, deposit_not_positive))
      else (let (n', event) = create_event now EventType.deposit amount request_id n in
          let (log, added) = add_event event n'.event_log in
          if added
          then (
            set_checkpoint (deposited_checkpoint amount event n'.checkpoint)
                (record n' { event_log = log }),
            (true, processed event.event_id),
          )
          else (record n' { event_log = log }, (false, event_rejected)))

  -- Steps 4 to 6 of `withdraw`, on the synced node: the event to propagate, if there is one.
  unfoldable pub withdraw_local : Now → ℤ → String → Node → Node × (Option TransactionEvent × Reply)
  unfolding create_event set_checkpoint optimized_balance
  withdraw_local now amount request_id n =
      if ltb_ℤ (optimized_balance n) amount
      then (n, (none, insufficient (optimized_balance n) amount))
      else (let (n', event) = create_event now EventType.withdraw amount request_id n in
          let (log, added) = add_event event n'.event_log in
          if added
          then (
            set_checkpoint (withdrawn_checkpoint (optimized_balance n) amount event n'.checkpoint)
                (record n' { event_log = log }),
            (some event, processed event.event_id),
          )
          else (record n' { event_log = log }, (none, event_rejected)))

  -- The body of `commit_coordinated_withdraw` for a prepared event.
  unfoldable pub commit_event : String → TransactionEvent → Node → Node × (Bool × Reply)
  unfolding set_checkpoint compute_current_balance
  commit_event transaction_id event n =
      let (log, added) = add_event event n.event_log in
      let n' : Node = record n { event_log = log } in
      if added
      then (
        record (set_checkpoint
            (withdrawn_checkpoint (compute_current_balance n') event.amount event n.checkpoint)
            n') {
              prepared_transactions = erase transaction_id n.prepared_transactions;
              locked_funds =
                  (if contains transaction_id n.locked_funds
                    then erase transaction_id n.locked_funds
                    else n.locked_funds);
            },
        (true, withdrawal_committed),
      )
      else (n', (false, failed_to_add))

  unfoldable pub commit_coordinated_withdraw : String → Node → Node × (Bool × Reply)
  unfolding commit_event
  commit_coordinated_withdraw transaction_id n =
      if n.lock_free
      then elim (lookup transaction_id n.prepared_transactions) [
        | none ↦ (n, (false, no_prepared))
        | some event ↦ commit_event transaction_id event n
      ]
      else (n, (false, no_lock))

  -- Step 4 of `p2p_withdraw`, once the quorum is there: the event to propagate, if there is one.
  unfoldable pub p2p_apply : Now → String → ℤ → String → Node → Node × Option TransactionEvent
  unfolding create_event set_checkpoint compute_current_balance
  p2p_apply now transaction_id amount request_id n =
      let (n', created) = create_event now EventType.withdraw amount request_id n in
      let event : TransactionEvent = record created { transaction_id = transaction_id } in
      let (log, added) = add_event event n'.event_log in
      let n'' : Node = record n' { event_log = log } in
      if added
      then (
        set_checkpoint
            (withdrawn_checkpoint (compute_current_balance n'') amount event n'.checkpoint) n'',
        some event,
      )
      else (n'', none)
