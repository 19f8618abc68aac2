-- ===== src/Cluster/Branches.antt =====
-- The safety of nodes under each handler, branch by branch.
use mobile_money_simulator.Prelude.{
  ℕ, String, inl, inr, Bool, true, false, not, List, [], ◌∷◌, ◌++◌, Option, none, some,
  if◌then◌else◌, Option-cases, string_eq, nat_eq, length,
}
use mobile_money_simulator.Prelude.Int.{ℤ, pos, leb_ℤ}
use mobile_money_simulator.Dict.{lookup}
use mobile_money_simulator.EventLog.{TransactionEvent}
use mobile_money_simulator.Checkpoint.{Codec}
use mobile_money_simulator.Commit
use mobile_money_simulator.Commit.{
  ReplicaVote, create_transaction, record_prepare_vote, can_commit, commit_transaction,
  rollback_transaction, finalize_transaction,
}
use mobile_money_simulator.Quorum
use mobile_money_simulator.Quorum.{
  QuorumVote, initiate_withdrawal, record_peer_vote, has_quorum, apply_withdrawal,
  reject_withdrawal,
}
use mobile_money_simulator.Node
use mobile_money_simulator.Node.{
  Node, Now, prepare, p2p_vote, receive_event, withdraw_local, commit_coordinated_withdraw, deposit,
  rollback_coordinated_withdraw, p2p_apply, compute_current_balance,
}
use mobile_money_simulator.Node.Reach.{Step, Step-IsSafe}
use mobile_money_simulator.Cluster.{
  Cluster, Reply, on, synced, get_balance, prepare_at, vote_at, coordinate, initiate,
}
use mobile_money_simulator.Cluster.Handlers.{
  request_prepare, prepare_remotes, rollback_everywhere, commit_everywhere, request_vote,
  request_votes, withdraw_locked, guarded, finish_coordinated, coordinated_locked, finish_p2p,
  p2p_locked,
}
use mobile_money_simulator.Cluster.Safety.{
  AllSafe, on-AllSafe, synced-IsSafe, if-IsSafe, prepare_at-IsSafe, vote_at-IsSafe,
  coordinate-AllSafe, initiate-AllSafe, propagate_event-AllSafe,
}

module _ (codec : Codec) (print : ℕ → String) (commit_text : Commit.Reply → String)
    (quorum_text : Quorum.Reply → String) where
  if-AllSafe :
      {A : Type 0} (b : Bool) (x y : Cluster × A)
      → AllSafe codec print x.0
      → AllSafe codec print y.0
      → AllSafe codec print (if b then x else y).0
  if-AllSafe true x y p q = p
  if-AllSafe false x y p q = q

  option-AllSafe :
      {A : Type 0} (sent : Option TransactionEvent) (x : Cluster × A)
      (y : TransactionEvent → Cluster × A)
      → AllSafe codec print x.0
      → ((event : TransactionEvent) → AllSafe codec print (y event).0)
      → AllSafe codec print (elim sent as (λ _. Cluster × A) [ none ↦ x | some event ↦ y event ]).0
  option-AllSafe none x y p q = p
  option-AllSafe (some event) x y p q = q event

  pub guarded-AllSafe :
      (amount : ℤ) (self : String) (body : Node → Cluster → Cluster × (Bool × Reply)) (c : Cluster)
      → AllSafe codec print c
      → ((n : Node) → AllSafe codec print (body n c).0)
      → AllSafe codec print (guarded codec print commit_text quorum_text amount self body c).0
  guarded-AllSafe amount self body c safe keeps = elim (Option-cases (lookup self c)) [
    | inl absent ↦ rw (absent, guarded) safe
    | inr (n, found) ↦
        rw (found, guarded)
          (if-AllSafe (not n.lock_free) _ _ safe
            (if-AllSafe (leb_ℤ amount (pos 0)) _ _ safe (keeps n)))
  ]

  pub withdraw_locked-AllSafe :
      (now : Now) (amount : ℤ) (r self : String) (n : Node) (c : Cluster)
      → AllSafe codec print c
      → AllSafe codec print
          (withdraw_locked codec print commit_text quorum_text now amount r self n c).0
  unfolding withdraw_locked
  withdraw_locked-AllSafe now amount r self n c safe =
      let call : Node → Node × (Option TransactionEvent × Node.Reply) =
        λ n. withdraw_local codec print now amount r (synced c n) in
      let done = on self (none, Node.no_lock) call c in
      let kept =
        on-AllSafe codec print self (none, Node.no_lock) call c
          (λ n s.
            Step-IsSafe codec print (Step.withdraws now amount r (synced c n))
              (synced-IsSafe codec print c n s))
          safe in
      option-AllSafe done.1.0 _ _ kept
        (λ event. propagate_event-AllSafe codec print event n.remote_nodes done.0 kept)

  request_prepare-AllSafe :
      (clock : String → Now) (self t : String) (amount : ℤ) (r : String) (raised : ReplicaVote)
      (target : String) (c : Cluster)
      → AllSafe codec print c
      → AllSafe codec print (request_prepare clock self t amount r raised target c)
  unfolding request_prepare
  request_prepare-AllSafe clock self t amount r raised target c safe =
      coordinate-AllSafe codec print self tt _ _ (
        on-AllSafe codec print target raised (prepare_at c (clock target) t amount r) c
          (prepare_at-IsSafe codec print c (clock target) t amount r) safe)

  prepare_remotes-AllSafe :
      (clock : String → Now) (self t : String) (amount : ℤ) (r : String) (remotes : List String)
      (c : Cluster)
      → AllSafe codec print c
      → AllSafe codec print (prepare_remotes clock self t amount r remotes c)
  unfolding prepare_remotes
  prepare_remotes-AllSafe clock self t amount r [] c safe = safe
  prepare_remotes-AllSafe clock self t amount r (remote ∷ rest) c safe =
      prepare_remotes-AllSafe clock self t amount r rest _
        (request_prepare-AllSafe clock self t amount r ReplicaVote.timeout remote c safe)

  rollback_everywhere-AllSafe :
      (t : String) (ids : List String) (c : Cluster)
      → AllSafe codec print c
      → AllSafe codec print (rollback_everywhere t ids c)
  unfolding rollback_everywhere
  rollback_everywhere-AllSafe t [] c safe = safe
  rollback_everywhere-AllSafe t (target ∷ rest) c safe = rollback_everywhere-AllSafe t rest _ (
      on-AllSafe codec print target _ (rollback_coordinated_withdraw t) c
        (λ n s. Step-IsSafe codec print (Step.rolls_back t n) s) safe)

  commit_everywhere-AllSafe :
      (t : String) (ids : List String) (c : Cluster)
      → AllSafe codec print c
      → AllSafe codec print (commit_everywhere codec print commit_text quorum_text t ids c)
  unfolding commit_everywhere
  commit_everywhere-AllSafe t [] c safe = safe
  commit_everywhere-AllSafe t (target ∷ rest) c safe = commit_everywhere-AllSafe t rest _ (
      on-AllSafe codec print target _ (commit_coordinated_withdraw codec print t) c
        (λ n s. Step-IsSafe codec print (Step.commits t n) s) safe)

  finish_coordinated-AllSafe :
      (t self : String) (remotes : List String) (c : Cluster)
      → AllSafe codec print c
      → AllSafe codec print
          (finish_coordinated codec print commit_text quorum_text t self remotes c).0
  unfolding finish_coordinated
  finish_coordinated-AllSafe t self remotes c safe =
      let ids = remotes ++ self ∷ [] in
      let asked =
        on self (false, Commit.not_found) (coordinate (λ m. (m, can_commit t (length ids) m))) c in
      let kept =
        coordinate-AllSafe codec print self (false, Commit.not_found)
          (λ m. (m, can_commit t (length ids) m)) c safe in
      if-AllSafe asked.1.0 _ _
        (coordinate-AllSafe codec print self _ _ _ (
          coordinate-AllSafe codec print self _ _ _ (commit_everywhere-AllSafe t ids asked.0 kept)))
        (coordinate-AllSafe codec print self _ _ _ (rollback_everywhere-AllSafe t ids asked.0 kept))

  pub coordinated_locked-AllSafe :
      (clock : String → Now) (started : ℕ) (new_id : String) (amount : ℤ) (r self : String)
      (n : Node) (c : Cluster)
      → AllSafe codec print c
      → AllSafe codec print
          (coordinated_locked codec print commit_text quorum_text clock started new_id amount r self
            n c).0
  unfolding coordinated_locked
  coordinated_locked-AllSafe clock started new_id amount r self n c safe =
      let create : Commit.CommitManager → Commit.CommitManager × (Bool × Commit.Reply × String) =
        create_transaction new_id started n.account_id amount r in
      let created = on self (false, Commit.not_found, "") (coordinate create) c in
      let kept = coordinate-AllSafe codec print self (false, Commit.not_found, "") create c safe in
      let t = created.1.2 in
      if-AllSafe created.1.0 _ _
        (finish_coordinated-AllSafe t self n.remote_nodes _ (
          request_prepare-AllSafe clock self t amount r ReplicaVote.nack self _
            (prepare_remotes-AllSafe clock self t amount r n.remote_nodes created.0 kept)))
        kept

  request_vote-AllSafe :
      (self t : String) (amount : ℤ) (raised : QuorumVote) (target : String) (c : Cluster)
      → AllSafe codec print c
      → AllSafe codec print (request_vote self t amount raised target c)
  unfolding request_vote
  request_vote-AllSafe self t amount raised target c safe =
      initiate-AllSafe codec print self tt _ _ (
        on-AllSafe codec print target raised (vote_at c amount) c
          (vote_at-IsSafe codec print c amount) safe)

  request_votes-AllSafe :
      (self t : String) (amount : ℤ) (remotes : List String) (c : Cluster)
      → AllSafe codec print c
      → AllSafe codec print (request_votes self t amount remotes c)
  unfolding request_votes
  request_votes-AllSafe self t amount [] c safe = safe
  request_votes-AllSafe self t amount (remote ∷ rest) c safe =
      request_votes-AllSafe self t amount rest _
        (request_vote-AllSafe self t amount QuorumVote.timeout remote c safe)

  finish_p2p-AllSafe :
      (now : Now) (t : String) (amount : ℤ) (r self : String) (remotes : List String) (c : Cluster)
      → AllSafe codec print c
      → AllSafe codec print
          (finish_p2p codec print commit_text quorum_text now t amount r self remotes c).0
  unfolding finish_p2p
  finish_p2p-AllSafe now t amount r self remotes c safe =
      let asked = on self (false, Quorum.not_found) (initiate (λ m. (m, has_quorum t m))) c in
      let kept =
        initiate-AllSafe codec print self (false, Quorum.not_found) (λ m. (m, has_quorum t m)) c
          safe in
      let applied = on self none (p2p_apply codec print now t amount r) asked.0 in
      let done =
        on-AllSafe codec print self none (p2p_apply codec print now t amount r) asked.0
          (λ n s. Step-IsSafe codec print (Step.applies now t amount r n) s) kept in
      if-AllSafe asked.1.0 _ _
        (option-AllSafe applied.1 _ _ done (λ event.
          initiate-AllSafe codec print self _ _ _
            (propagate_event-AllSafe codec print event remotes applied.0 done)))
        (initiate-AllSafe codec print self _ _ _ kept)

  pub p2p_locked-AllSafe :
      (now : Now) (started : ℕ) (new_id : String) (amount : ℤ) (r self : String) (n : Node)
      (c : Cluster)
      → AllSafe codec print c
      → AllSafe codec print
          (p2p_locked codec print commit_text quorum_text now started new_id amount r self n c).0
  unfolding p2p_locked
  p2p_locked-AllSafe now started new_id amount r self n c safe =
      let begin : Quorum.QuorumManager → Quorum.QuorumManager × (Bool × Quorum.Reply × String) =
        initiate_withdrawal new_id started n.account_id amount r in
      let created = on self (false, Quorum.not_found, "") (initiate begin) c in
      let kept = initiate-AllSafe codec print self (false, Quorum.not_found, "") begin c safe in
      let t = created.1.2 in
      if-AllSafe created.1.0 _ _
        (finish_p2p-AllSafe now t amount r self n.remote_nodes _ (
          request_vote-AllSafe self t amount QuorumVote.reject self _
            (request_votes-AllSafe self t amount n.remote_nodes created.0 kept)))
        kept

  pub get_balance-AllSafe :
      (self : String) (c : Cluster)
      → AllSafe codec print c
      → AllSafe codec print (get_balance self c).0
  unfolding get_balance
  get_balance-AllSafe self c safe =
      on-AllSafe codec print self _ _ c
        (λ n s. if-IsSafe codec print n.lock_free _ _ (synced-IsSafe codec print c n s) s) safe
