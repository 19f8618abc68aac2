-- ===== src/Cluster/Runs.antt =====
-- Runs of handlers over a table of nodes, and what they keep.
use mobile_money_simulator.Prelude.{ℕ, String, Bool, false, string_eq, nat_eq}
use mobile_money_simulator.Prelude.Int.{ℤ}
use mobile_money_simulator.Checkpoint.{Codec}
use mobile_money_simulator.Commit
use mobile_money_simulator.Commit.{
  ReplicaVote, create_transaction, record_prepare_vote, can_commit, commit_transaction,
  rollback_transaction, finalize_transaction,
}
use mobile_money_simulator.Quorum
use mobile_money_simulator.Quorum.{
  QuorumVote, initiate_withdrawal, record_peer_vote, has_quorum, apply_withdrawal,
  reject_withdrawal,
}
use mobile_money_simulator.Node
use mobile_money_simulator.Node.{
  Node, Now, prepare, p2p_vote, receive_event, withdraw_local, commit_coordinated_withdraw, deposit,
  rollback_coordinated_withdraw, p2p_apply, compute_current_balance,
}
use mobile_money_simulator.Node.Reach.{Step, Step-IsSafe}
use mobile_money_simulator.Cluster.{Cluster, on, get_balance}
use mobile_money_simulator.Cluster.Handlers.{
  withdraw_locked, withdraw, coordinated_locked, coordinated_withdraw, p2p_locked, p2p_withdraw,
}
use mobile_money_simulator.Cluster.Safety.{AllSafe, on-AllSafe}
use mobile_money_simulator.Cluster.Branches.{
  guarded-AllSafe, withdraw_locked-AllSafe, coordinated_locked-AllSafe, p2p_locked-AllSafe,
  get_balance-AllSafe,
}

module _ (codec : Codec) (print : ℕ → String) (commit_text : Commit.Reply → String)
    (quorum_text : Quorum.Reply → String) where
  -- One call of a handler at any node, or a lock that another thread takes or frees.
  pub data Handled : Cluster → Cluster → Type 0 where
    withdraws :
        (now : Now) (amount : ℤ) (r self : String) (c : Cluster)
        → Handled c (withdraw codec print commit_text quorum_text now amount r self c).0
    coordinates :
        (clock : String → Now) (started : ℕ) (new_id : String) (amount : ℤ) (r self : String)
        (c : Cluster)
        → Handled c
            (coordinated_withdraw codec print commit_text quorum_text clock started new_id amount r
              self c).0
    agrees :
        (now : Now) (started : ℕ) (new_id : String) (amount : ℤ) (r self : String) (c : Cluster)
        → Handled c
            (p2p_withdraw codec print commit_text quorum_text now started new_id amount r self c).0
    reads : (self : String) (c : Cluster) → Handled c (get_balance self c).0
    deposits :
        (now : Now) (amount : ℤ) (r self : String) (c : Cluster)
        → Handled c (on self (false, Node.no_lock) (deposit codec print now amount r) c).0
    locks :
        (free : Bool) (self : String) (c : Cluster)
        → Handled c (on self tt (λ n. (record n { lock_free = free }, tt)) c).0

  pub data Run : Cluster → Cluster → Type 0 where
    stop : (c : Cluster) → Run c c
    next : {a b c : Cluster} → Handled a b → Run b c → Run a c

  Handled-AllSafe : {c c' : Cluster} → Handled c c' → AllSafe codec print c → AllSafe codec print c'
  unfolding withdraw coordinated_withdraw p2p_withdraw
  Handled-AllSafe (Handled.withdraws now amount r self c) safe =
      guarded-AllSafe codec print commit_text quorum_text amount self
        (withdraw_locked codec print commit_text quorum_text now amount r self) c safe
        (λ n.
          withdraw_locked-AllSafe codec print commit_text quorum_text now amount r self n c safe)
  Handled-AllSafe (Handled.coordinates clock started new_id amount r self c) safe =
      guarded-AllSafe codec print commit_text quorum_text amount self
        (coordinated_locked codec print commit_text quorum_text clock started new_id amount r self)
        c safe
        (λ n.
          coordinated_locked-AllSafe codec print commit_text quorum_text clock started new_id amount
            r self n c safe)
  Handled-AllSafe (Handled.agrees now started new_id amount r self c) safe =
      guarded-AllSafe codec print commit_text quorum_text amount self
        (p2p_locked codec print commit_text quorum_text now started new_id amount r self) c safe
        (λ n.
          p2p_locked-AllSafe codec print commit_text quorum_text now started new_id amount r self n
            c safe)
  Handled-AllSafe (Handled.reads self c) safe =
      get_balance-AllSafe codec print commit_text quorum_text self c safe
  Handled-AllSafe (Handled.deposits now amount r self c) safe =
      on-AllSafe codec print self _ (deposit codec print now amount r) c
        (λ n s. Step-IsSafe codec print (Step.deposits now amount r n) s) safe
  Handled-AllSafe (Handled.locks free self c) safe =
      on-AllSafe codec print self tt (λ n. (record n { lock_free = free }, tt)) c
        (λ n s. Step-IsSafe codec print (Step.locks free n) s) safe

  -- In any run of the handlers over the nodes, on every branch of each, every node keeps a well
  -- formed log, the checkpoint in memory equal to the stored one, and funds locked exactly for its
  -- prepared withdrawals, if every node has them at the start.
  pub Run-AllSafe : {c c' : Cluster} → Run c c' → AllSafe codec print c → AllSafe codec print c'
  Run-AllSafe (Run.stop c) safe = safe
  Run-AllSafe (Run.next s run) safe = Run-AllSafe run (Handled-AllSafe s safe)
