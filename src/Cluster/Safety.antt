-- ===== src/Cluster/Safety.antt =====
-- The safety of a table of nodes under single calls.
use mobile_money_simulator.Prelude.{
  ℕ, String, ◌≡◌, refl, sym, ◌∙◌, inl, inr, Bool, true, false, List, [], ◌∷◌, some, if◌then◌else◌,
  Bool-cases, Option-cases, ◌==◌, string_eq, nat_eq,
}
use mobile_money_simulator.Prelude.Int.{ℤ}
use mobile_money_simulator.Dict.{lookup, lookup-insert}
use mobile_money_simulator.EventLog.{TransactionEvent}
use mobile_money_simulator.Checkpoint.{Codec}
use mobile_money_simulator.Commit
use mobile_money_simulator.Commit.{
  ReplicaVote, create_transaction, record_prepare_vote, can_commit, commit_transaction,
  rollback_transaction, finalize_transaction,
}
use mobile_money_simulator.Quorum
use mobile_money_simulator.Quorum.{
  QuorumVote, initiate_withdrawal, record_peer_vote, has_quorum, apply_withdrawal,
  reject_withdrawal,
}
use mobile_money_simulator.Node.{Node, Now, receive_event}
use mobile_money_simulator.Node.Reach.{IsSafe, Step, Step-IsSafe, merge-IsSafe}
use mobile_money_simulator.Cluster.{
  Cluster, on, synced, sync_events, propagate_event, prepare_at, vote_at, coordinate, initiate,
}

module _ (codec : Codec) (print : ℕ → String) where
  pub record AllSafe (c : Cluster) : Type 0 where
    pub at : (node_id : String) (n : Node) → lookup node_id c ≡ some n → IsSafe codec print n

  pub on-AllSafe :
      {A : Type 0} (node_id : String) (d : A) (f : Node → Node × A) (c : Cluster)
      → ((n : Node) → IsSafe codec print n → IsSafe codec print (f n).0)
      → AllSafe c
      → AllSafe (on node_id d f c).0
  unfolding on
  on-AllSafe node_id d f c keeps safe = elim (Option-cases (lookup node_id c)) [
    | inl absent ↦ rw (absent, on) safe
    | inr (n, found) ↦
        rw (found, on)
          (record {
            at = λ j m h. elim (Bool-cases (node_id == j)) [
              | inl here ↦
                  let same : some (f n).0 ≡ some m =
                    sym (lookup-insert node_id j (f n).0 c ∙ rw here refl) ∙ h in
                  rw (← some_eq (f n).0 m same) (keeps n (safe.at node_id n found))
              | inr other ↦
                  safe.at j m (sym (lookup-insert node_id j (f n).0 c ∙ rw other refl) ∙ h)
            ];
          })
  ]
    where
      some_eq : (x y : Node) → some x ≡ some y → x ≡ y
      some_eq x y h = cc

  pub synced-IsSafe :
      (c : Cluster) (n : Node) → IsSafe codec print n → IsSafe codec print (synced c n)
  unfolding synced
  synced-IsSafe c n safe = merge-IsSafe codec print (sync_events n c) n safe

  pub if-IsSafe :
      {A : Type 0} (b : Bool) (x y : Node × A)
      → IsSafe codec print x.0
      → IsSafe codec print y.0
      → IsSafe codec print (if b then x else y).0
  if-IsSafe true x y p q = p
  if-IsSafe false x y p q = q

  pub prepare_at-IsSafe :
      (c : Cluster) (now : Now) (t : String) (amount : ℤ) (r : String) (n : Node)
      → IsSafe codec print n
      → IsSafe codec print (prepare_at c now t amount r n).0
  unfolding prepare_at
  prepare_at-IsSafe c now t amount r n safe =
      if-IsSafe n.lock_free _ _
        (Step-IsSafe codec print (Step.prepares now t amount r (synced c n))
          (synced-IsSafe c n safe))
        safe

  pub vote_at-IsSafe :
      (c : Cluster) (amount : ℤ) (n : Node)
      → IsSafe codec print n
      → IsSafe codec print (vote_at c amount n).0
  unfolding vote_at
  vote_at-IsSafe c amount n safe = if-IsSafe n.lock_free _ _ (synced-IsSafe c n safe) safe

  pub coordinate-AllSafe :
      {A : Type 0} (self : String) (d : A) (f : Commit.CommitManager → Commit.CommitManager × A)
      (c : Cluster)
      → AllSafe c
      → AllSafe (on self d (coordinate f) c).0
  coordinate-AllSafe self d f c = on-AllSafe self d (coordinate f) c (λ n safe. record {
    sound = record { well_formed = safe.sound.well_formed; stored = safe.sound.stored };
    reserves = safe.reserves;
  })

  pub initiate-AllSafe :
      {A : Type 0} (self : String) (d : A) (f : Quorum.QuorumManager → Quorum.QuorumManager × A)
      (c : Cluster)
      → AllSafe c
      → AllSafe (on self d (initiate f) c).0
  initiate-AllSafe self d f c = on-AllSafe self d (initiate f) c (λ n safe. record {
    sound = record { well_formed = safe.sound.well_formed; stored = safe.sound.stored };
    reserves = safe.reserves;
  })

  pub propagate_event-AllSafe :
      (event : TransactionEvent) (remotes : List String) (c : Cluster)
      → AllSafe c
      → AllSafe (propagate_event event remotes c).0
  unfolding propagate_event
  propagate_event-AllSafe event [] c safe = safe
  propagate_event-AllSafe event (remote ∷ rest) c safe = propagate_event-AllSafe event rest _ (
      on-AllSafe remote false (receive_event event) c
        (λ n s. Step-IsSafe codec print (Step.receives event n) s) safe)
