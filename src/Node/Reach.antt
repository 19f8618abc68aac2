-- ===== src/Node/Reach.antt =====
-- What holds of a node after any run of its calls, whatever events the syncs bring.
use mobile_money_simulator.Prelude.{
  ℕ, String, refl, ◌∙◌, inl, inr, Bool, true, false, List, [], Option, Bool-cases, Option-cases,
  string_eq, nat_eq, beq_refl,
}
use mobile_money_simulator.Prelude.Int.{ℤ, ltb_ℤ, ◌-ℤ◌, pos}
use mobile_money_simulator.Dict.{lookup, values}
use mobile_money_simulator.EventLog.{
  TransactionEvent, EventLog, add_event, store_event, merge_events, is_duplicate,
}
use mobile_money_simulator.EventLog.Invariant.{
  IsWellFormed, IsWellFormed-empty, add_event-IsWellFormed, store_event-IsWellFormed,
}
use mobile_money_simulator.EventLog.Merge.{merge_events-IsWellFormed}
use mobile_money_simulator.Checkpoint.{
  Codec, get_or_create_checkpoint, load_checkpoint, create_checkpoint,
}
use mobile_money_simulator.Checkpoint.Storage.{load_checkpoint-save_checkpoint}
use mobile_money_simulator.Node.{
  Node, Now, create_event, merge_remote, deposit, withdraw_local, prepare, sum, optimized_balance,
  rollback_coordinated_withdraw, commit_event, commit_coordinated_withdraw, p2p_apply,
  receive_event, new_node, checkpoint_key, set_checkpoint,
}
use mobile_money_simulator.Node.Money.{
  IsKept, set_checkpoint-IsStored, IsBooked, IsSound, IsKept-IsSound, IsBooked-IsSound,
  deposit_outcome, withdraw_local_cases,
}
use mobile_money_simulator.Node.Commits.{
  p2p_apply_outcome, IsApplied, commit_event_accepted, commit_event_refused,
}
use mobile_money_simulator.Node.Reserved.{
  Reserves, prepare-Reserves, rollback-Reserves, commit_event-Reserves,
}

module _ (codec : Codec) (print : ℕ → String) where
  -- One call of the node, after a sync that may have brought any events.
  pub data Step : Node → Node → Type 0 where
    syncs : (remote : List TransactionEvent) (n : Node) → Step n (merge_remote remote n)
    deposits :
        (now : Now) (amount : ℤ) (request_id : String) (n : Node)
        → Step n (deposit codec print now amount request_id n).0
    withdraws :
        (now : Now) (amount : ℤ) (request_id : String) (n : Node)
        → Step n (withdraw_local codec print now amount request_id n).0
    prepares :
        (now : Now) (transaction_id : String) (amount : ℤ) (request_id : String) (n : Node)
        → Step n (prepare now transaction_id amount request_id n).0
    commits :
        (transaction_id : String) (n : Node)
        → Step n (commit_coordinated_withdraw codec print transaction_id n).0
    rolls_back :
        (transaction_id : String) (n : Node)
        → Step n (rollback_coordinated_withdraw transaction_id n).0
    applies :
        (now : Now) (transaction_id : String) (amount : ℤ) (request_id : String) (n : Node)
        → Step n (p2p_apply codec print now transaction_id amount request_id n).0
    receives : (event : TransactionEvent) (n : Node) → Step n (receive_event event n).0
    -- another thread takes or frees the node's lock
    locks : (free : Bool) (n : Node) → Step n (record n { lock_free = free })

  pub data Run : Node → Node → Type 0 where
    stop : (n : Node) → Run n n
    next : {n m k : Node} → Step n m → Run m k → Run n k

  -- The log is well formed, the stored checkpoint is the one in memory, and funds are locked
  -- exactly for the prepared withdrawals.
  pub record IsSafe (n : Node) : Type 0 where
    pub sound : IsSound codec print n
    pub reserves : Reserves n

  IsKept-IsSafe : (n n' : Node) → IsSafe n → IsKept n n' → IsSafe n'
  IsKept-IsSafe n n' safe k = record {
    sound = IsKept-IsSound codec print n n' safe.sound k;
    reserves = λ t. rw (k.locked_funds, k.prepared_transactions) (safe.reserves t);
  }

  IsBooked-IsSafe :
      (event : TransactionEvent) (n n' : Node) {c : _}
      → IsSafe n
      → IsBooked codec print event c n n'
      → IsSafe n'
  IsBooked-IsSafe event n n' {c} safe b = record {
    sound = IsBooked-IsSound codec print event c n n' safe.sound b;
    reserves = λ t. rw (b.locked_funds, b.prepared_transactions) (safe.reserves t);
  }

  IsApplied-IsSafe :
      (event : TransactionEvent) {sent : Option TransactionEvent} (n n' : Node)
      → IsSafe n
      → IsApplied codec print event sent n n'
      → IsSafe n'
  IsApplied-IsSafe event n n' safe b = record {
    sound = record {
      well_formed =
          rw b.event_log (add_event-IsWellFormed event n.event_log safe.sound.well_formed);
      stored = b.stored;
    };
    reserves = λ t. rw (b.locked_funds, b.prepared_transactions) (safe.reserves t);
  }

  relock : (free : Bool) (n : Node) → IsSafe n → IsSafe (record n { lock_free = free })
  relock free n safe = record {
    sound = record { well_formed = safe.sound.well_formed; stored = safe.sound.stored };
    reserves = safe.reserves;
  }

  commit_event-IsSound :
      (transaction_id : String) (event : TransactionEvent) (n : Node)
      → IsSound codec print n
      → IsSound codec print (commit_event codec print transaction_id event n).0
  unfolding set_checkpoint add_event
  commit_event-IsSound transaction_id event n sound =
      elim (Bool-cases (is_duplicate event n.event_log)) [
        | inl dup ↦ rw (commit_event_refused codec print transaction_id event n dup) sound
        | inr new ↦ rw (commit_event_accepted codec print transaction_id event n new) (record {
          well_formed = store_event-IsWellFormed event n.event_log sound.well_formed new;
          stored =
              set_checkpoint-IsStored codec print _
                (record n { event_log = store_event event n.event_log });
        })
      ]

  commit-IsSafe :
      (transaction_id : String) (n : Node)
      → IsSafe n
      → IsSafe (commit_coordinated_withdraw codec print transaction_id n).0
  unfolding commit_coordinated_withdraw
  commit-IsSafe t n safe = elim (Bool-cases n.lock_free) [
    | inr busy ↦ rw busy (relock false n safe)
    | inl free ↦ elim (Option-cases (lookup t n.prepared_transactions)) [
      | inl none_there ↦ rw (free, none_there) safe
      | inr (event, found) ↦
          rw (free, found)
            (record {
              sound = commit_event-IsSound t event n safe.sound;
              reserves = commit_event-Reserves codec print t event n safe.reserves;
            })
    ]
  ]

  prepare-IsSound :
      (now : Now) (t : String) (amount : ℤ) (request_id : String) (n : Node)
      → IsSound codec print n
      → IsSound codec print (prepare now t amount request_id n).0
  unfolding prepare create_event
  prepare-IsSound now t amount request_id n sound =
      elim (Bool-cases (ltb_ℤ (optimized_balance n -ℤ sum (values n.locked_funds)) amount)) [
        | inl short ↦ rw short sound
        | inr enough ↦ rw enough (record { well_formed = sound.well_formed; stored = sound.stored })
      ]

  rollback-IsSound :
      (t : String) (n : Node)
      → IsSound codec print n
      → IsSound codec print (rollback_coordinated_withdraw t n).0
  unfolding rollback_coordinated_withdraw
  rollback-IsSound t n sound = elim (Bool-cases n.lock_free) [
    | inr busy ↦ rw busy (record { well_formed = sound.well_formed; stored = sound.stored })
    | inl free ↦ rw free (record { well_formed = sound.well_formed; stored = sound.stored })
  ]

  relog :
      (log : EventLog) (n : Node)
      → IsSafe n
      → IsWellFormed log
      → IsSafe (record n { event_log = log })
  relog log n safe wf = record {
    sound = record { well_formed = wf; stored = safe.sound.stored };
    reserves = safe.reserves;
  }

  receive-IsSafe :
      (event : TransactionEvent) (n : Node) → IsSafe n → IsSafe (receive_event event n).0
  unfolding receive_event
  receive-IsSafe event n safe = elim (Bool-cases n.lock_free) [
    | inr busy ↦ rw busy (relock false n safe)
    | inl free ↦ rw free (
        relog (add_event event n.event_log).0 (record n { lock_free = true }) (relock true n safe)
          (add_event-IsWellFormed event n.event_log safe.sound.well_formed))
  ]

  pub merge-IsSafe :
      (remote : List TransactionEvent) (n : Node) → IsSafe n → IsSafe (merge_remote remote n)
  unfolding merge_remote
  merge-IsSafe remote n safe =
      relog (merge_events remote n.event_log).0 n safe
        (merge_events-IsWellFormed remote n.event_log safe.sound.well_formed)

  pub Step-IsSafe : {n n' : Node} → Step n n' → IsSafe n → IsSafe n'
  Step-IsSafe (Step.syncs remote n) safe = merge-IsSafe remote n safe
  Step-IsSafe (Step.deposits now amount r n) safe =
      elim (deposit_outcome codec print now amount r n) [
        | inl refused ↦ IsKept-IsSafe n _ safe refused.1
        | inr booked ↦ IsBooked-IsSafe _ n _ safe booked.3
      ]
  Step-IsSafe (Step.withdraws now amount r n) safe =
      elim (withdraw_local_cases codec print now amount r n) [
        | inl refused ↦ IsKept-IsSafe n _ safe refused.1
        | inr booked ↦ IsBooked-IsSafe _ n _ safe booked.3
      ]
  Step-IsSafe (Step.prepares now t amount r n) safe = record {
    sound = prepare-IsSound now t amount r n safe.sound;
    reserves = prepare-Reserves now t amount r n safe.reserves;
  }
  Step-IsSafe (Step.commits t n) safe = commit-IsSafe t n safe
  Step-IsSafe (Step.rolls_back t n) safe = record {
    sound = rollback-IsSound t n safe.sound;
    reserves = rollback-Reserves t n safe.reserves;
  }
  Step-IsSafe (Step.applies now t amount r n) safe =
      elim (p2p_apply_outcome codec print now t amount r n) [
        | inl refused ↦ IsKept-IsSafe n _ safe refused.1
        | inr applied ↦ IsApplied-IsSafe _ n _ safe applied
      ]
  Step-IsSafe (Step.receives event n) safe = receive-IsSafe event n safe
  Step-IsSafe (Step.locks free n) safe = relock free n safe

  Run-IsSafe : {n n' : Node} → Run n n' → IsSafe n → IsSafe n'
  Run-IsSafe (Run.stop n) safe = safe
  Run-IsSafe (Run.next s r) safe = Run-IsSafe r (Step-IsSafe s safe)

  pub new_node-IsSafe :
      (now hash : ℕ) (node_id : String) (account_id : ℕ) (initial_balance : ℤ) (min_replicas : ℕ)
      → IsSafe (new_node codec print now hash node_id account_id initial_balance min_replicas)
  unfolding new_node get_or_create_checkpoint load_checkpoint
  new_node-IsSafe now hash node_id account_id initial_balance min_replicas =
      let key = checkpoint_key print account_id node_id in
      record {
        sound = record {
          well_formed = IsWellFormed-empty;
          stored = λ later.
              load_checkpoint-save_checkpoint codec later
                (create_checkpoint now initial_balance 0 node_id account_id (pos 0) (pos 0) 0) key
                key []
              ∙ rw (beq_refl key) refl;
        };
        reserves = λ t. record { locked = refl; prepared = tt };
      }

  -- After any run of a node's calls, the log is well formed, the stored checkpoint is the one in
  -- memory, and the funds locked for each transaction are the amount of its prepared withdrawal,
  -- none where nothing is prepared.
  pub Run-new_node-IsSafe :
      (now hash : ℕ) (node_id : String) (account_id : ℕ) (initial_balance : ℤ) (min_replicas : ℕ)
      → {n : Node}
      → Run (new_node codec print now hash node_id account_id initial_balance min_replicas) n
      → IsSafe n
  Run-new_node-IsSafe now hash node_id account_id initial_balance min_replicas run =
      Run-IsSafe run (new_node-IsSafe now hash node_id account_id initial_balance min_replicas)
