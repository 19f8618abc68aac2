-- ===== src/Cluster/Failure.antt =====
-- Withdrawals that fail, through each handler.
use mobile_money_simulator.Prelude.{
  ℕ, String, ◌≡◌, refl, sym, ◌∙◌, ap₂, inl, inr, Bool, true, false, not, List, [], ◌∷◌, ◌++◌,
  Option, none, some, if◌then◌else◌, Option-cases, string_eq, nat_eq, length,
}
use mobile_money_simulator.Prelude.Int.{ℤ, pos, leb_ℤ}
use mobile_money_simulator.Dict.{lookup}
use mobile_money_simulator.EventLog.{TransactionEvent}
use mobile_money_simulator.Checkpoint.{Codec}
use mobile_money_simulator.Commit
use mobile_money_simulator.Commit.{
  ReplicaVote, can_commit, create_transaction, record_prepare_vote, rollback_transaction,
}
use mobile_money_simulator.Quorum
use mobile_money_simulator.Quorum.{
  QuorumVote, has_quorum, initiate_withdrawal, record_peer_vote, reject_withdrawal,
}
use mobile_money_simulator.Node
use mobile_money_simulator.Node.{
  Node, Now, create_event, merge_remote, optimized_balance, sum, prepare, receive_event,
  withdraw_local, rollback_coordinated_withdraw, p2p_apply,
}
use mobile_money_simulator.Node.Money.{withdraw_local_cases}
use mobile_money_simulator.Node.Commits.{p2p_apply_outcome}
use mobile_money_simulator.Cluster.{Cluster, Reply, on, synced, coordinate, initiate}
use mobile_money_simulator.Cluster.Handlers.{
  prepare_remotes, request_votes, withdraw_locked, guarded, withdraw, finish_coordinated,
  coordinated_locked, coordinated_withdraw, finish_p2p, p2p_locked, p2p_withdraw,
}
use mobile_money_simulator.Cluster.Money.{
  money, SameMoney, unchanged, then_same, insert-SameMoney, synced-money, coordinate-SameMoney,
  initiate-SameMoney, request_prepare-SameMoney, prepare_remotes-SameMoney,
  rollback_everywhere-SameMoney, request_vote-SameMoney, request_votes-SameMoney,
}

-- If the handler's result says that it failed, every node has its checkpoint.
abbrev Spares : Cluster → Cluster × (Bool × Reply) → Type 0
Spares c x = x.1.0 ≡ false → SameMoney c x.0

if-Spares :
    (b : Bool) (c : Cluster) (x y : Cluster × (Bool × Reply))
    → Spares c x
    → Spares c y
    → Spares c (if b then x else y)
if-Spares true c x y p q = p
if-Spares false c x y p q = q

succeeded : {A : Type 0} → true ≡ false → A
succeeded h = cc

none_some : {A B : Type 0} {b : B} → none ≡ some b → A
none_some h = cc

-- A call that leaves the money as it was whenever its result satisfies `P`.
on_when-SameMoney :
    {A : Type 0} (P : A → Type 0) (node_id : String) (d : A) (f : Node → Node × A) (c : Cluster)
    → ((n : Node) → P (f n).1 → money (f n).0 ≡ money n)
    → P (on node_id d f c).1
    → SameMoney c (on node_id d f c).0
unfolding on
on_when-SameMoney P node_id d f c same = elim (Option-cases (lookup node_id c)) [
  | inl absent ↦ rw (absent, on) (λ h. unchanged c)
  | inr (n, found) ↦ rw (found, on) (λ h. insert-SameMoney node_id n (f n).0 c found (same n h))
]

option-Spares :
    (sent : Option TransactionEvent) (c : Cluster) (x : Cluster × (Bool × Reply))
    (y : TransactionEvent → Cluster × (Bool × Reply))
    → (sent ≡ none → SameMoney c x.0)
    → ((event : TransactionEvent) → Spares c (y event))
    → Spares c (elim sent [ none ↦ x | some event ↦ y event ])
option-Spares none c x y p q h = p refl
option-Spares (some event) c x y p q h = q event h

module _ (codec : Codec) (print : ℕ → String) (commit_text : Commit.Reply → String)
    (quorum_text : Quorum.Reply → String) where
  guarded-Spares :
      (amount : ℤ) (self : String) (body : Node → Cluster → Cluster × (Bool × Reply)) (c : Cluster)
      → ((n : Node) → Spares c (body n c))
      → Spares c (guarded codec print commit_text quorum_text amount self body c)
  guarded-Spares amount self body c spares = elim (Option-cases (lookup self c)) [
    | inl absent ↦ rw (absent, guarded) (λ h. unchanged c)
    | inr (n, found) ↦
        rw (found, guarded)
          (if-Spares (not n.lock_free) c _ _ (λ h. unchanged c)
            (if-Spares (leb_ℤ amount (pos 0)) c _ _ (λ h. unchanged c) (spares n)))
  ]

  withdraw_local-money :
      (now : Now) (amount : ℤ) (r : String) (n : Node)
      → (withdraw_local codec print now amount r n).1.0 ≡ none
      → money (withdraw_local codec print now amount r n).0 ≡ money n
  withdraw_local-money now amount r n h = elim (withdraw_local_cases codec print now amount r n) [
    | inl refused ↦ ap₂ (λ c s. (c, s)) refused.1.checkpoint refused.1.storage
    | inr sent ↦ none_some (sym h ∙ sent.0)
  ]

  p2p_apply-money :
      (now : Now) (t : String) (amount : ℤ) (r : String) (n : Node)
      → (p2p_apply codec print now t amount r n).1 ≡ none
      → money (p2p_apply codec print now t amount r n).0 ≡ money n
  p2p_apply-money now t amount r n h = elim (p2p_apply_outcome codec print now t amount r n) [
    | inl refused ↦ ap₂ (λ c s. (c, s)) refused.1.checkpoint refused.1.storage
    | inr applied ↦ none_some (sym h ∙ applied.sent_it)
  ]

  finish_coordinated-Spares :
      (t self : String) (remotes : List String) (c : Cluster)
      → Spares c (finish_coordinated codec print commit_text quorum_text t self remotes c)
  unfolding finish_coordinated
  finish_coordinated-Spares t self remotes c =
      let asked =
        on self (false, Commit.not_found)
          (coordinate (λ m. (m, can_commit t (length (remotes ++ self ∷ [])) m))) c in
      if-Spares asked.1.0 c _ _ succeeded (λ h. then_same (coordinate-SameMoney self _ _ c) (
        then_same (rollback_everywhere-SameMoney t (remotes ++ self ∷ []) asked.0)
          (coordinate-SameMoney self _ _ _)))

  coordinated_locked-Spares :
      (clock : String → Now) (started : ℕ) (new_id : String) (amount : ℤ) (r self : String)
      (n : Node) (c : Cluster)
      → Spares c (
          coordinated_locked codec print commit_text quorum_text clock started new_id amount r self
            n c)
  unfolding coordinated_locked
  coordinated_locked-Spares clock started new_id amount r self n c =
      let created =
        on self (false, Commit.not_found, "")
          (coordinate (create_transaction new_id started n.account_id amount r)) c in
      let t = created.1.2 in
      let asked = prepare_remotes clock self t amount r n.remote_nodes created.0 in
      if-Spares created.1.0 c _ _
        (λ h. then_same (coordinate-SameMoney self _ _ c) (
          then_same (prepare_remotes-SameMoney clock self t amount r n.remote_nodes created.0) (
            then_same (request_prepare-SameMoney clock self t amount r ReplicaVote.nack self asked)
              (finish_coordinated-Spares t self n.remote_nodes _ h))))
        (λ h. coordinate-SameMoney self _ _ c)

  -- A two-phase withdrawal that fails, for whatever reason, leaves the checkpoint of every node,
  -- in memory and stored, as it was.
  pub coordinated_withdraw_fails-SameMoney :
      (clock : String → Now) (started : ℕ) (new_id : String) (amount : ℤ) (r self : String)
      (c : Cluster)
      → let (c', (ok, reply)) =
          coordinated_withdraw codec print commit_text quorum_text clock started new_id amount r
            self c in
        ok ≡ false → SameMoney c c'
  unfolding coordinated_withdraw
  coordinated_withdraw_fails-SameMoney clock started new_id amount r self c =
      guarded-Spares amount self
        (coordinated_locked codec print commit_text quorum_text clock started new_id amount r self)
        c (λ n. coordinated_locked-Spares clock started new_id amount r self n c)

  withdraw_locked-Spares :
      (now : Now) (amount : ℤ) (r self : String) (n : Node) (c : Cluster)
      → Spares c (withdraw_locked codec print commit_text quorum_text now amount r self n c)
  unfolding withdraw_locked
  withdraw_locked-Spares now amount r self n c =
      let call : Node → Node × (Option TransactionEvent × Node.Reply) =
        λ n. withdraw_local codec print now amount r (synced c n) in
      let done = on self (none, Node.no_lock) call c in
      option-Spares done.1.0 c _ _
        (on_when-SameMoney (λ a. a.0 ≡ none) self (none, Node.no_lock) call c
          (λ n h. withdraw_local-money now amount r (synced c n) h ∙ synced-money c n))
        (λ event. succeeded)

  -- A withdrawal that fails, for whatever reason, leaves the checkpoint of every node, in memory
  -- and stored, as it was.
  pub withdraw_fails-SameMoney :
      (now : Now) (amount : ℤ) (r self : String) (c : Cluster)
      → let (c', (ok, reply)) = withdraw codec print commit_text quorum_text now amount r self c in
        ok ≡ false → SameMoney c c'
  unfolding withdraw
  withdraw_fails-SameMoney now amount r self c =
      guarded-Spares amount self
        (withdraw_locked codec print commit_text quorum_text now amount r self) c
        (λ n. withdraw_locked-Spares now amount r self n c)

  finish_p2p-Spares :
      (now : Now) (t : String) (amount : ℤ) (r self : String) (remotes : List String) (c : Cluster)
      → Spares c (finish_p2p codec print commit_text quorum_text now t amount r self remotes c)
  unfolding finish_p2p
  finish_p2p-Spares now t amount r self remotes c =
      let asked = on self (false, Quorum.not_found) (initiate (λ m. (m, has_quorum t m))) c in
      let applied = on self none (p2p_apply codec print now t amount r) asked.0 in
      if-Spares asked.1.0 c _ _
        (option-Spares applied.1 c _ _
          (λ h. then_same (initiate-SameMoney self _ _ c) (
            on_when-SameMoney (λ a. a ≡ none) self none (p2p_apply codec print now t amount r)
              asked.0 (p2p_apply-money now t amount r) h))
          (λ event. succeeded))
        (λ h. then_same (initiate-SameMoney self _ _ c) (initiate-SameMoney self _ _ asked.0))

  p2p_locked-Spares :
      (now : Now) (started : ℕ) (new_id : String) (amount : ℤ) (r self : String) (n : Node)
      (c : Cluster)
      → Spares c
          (p2p_locked codec print commit_text quorum_text now started new_id amount r self n c)
  unfolding p2p_locked
  p2p_locked-Spares now started new_id amount r self n c =
      let created =
        on self (false, Quorum.not_found, "")
          (initiate (initiate_withdrawal new_id started n.account_id amount r)) c in
      let t = created.1.2 in
      let asked = request_votes self t amount n.remote_nodes created.0 in
      if-Spares created.1.0 c _ _
        (λ h. then_same (initiate-SameMoney self _ _ c) (
          then_same (request_votes-SameMoney self t amount n.remote_nodes created.0) (
            then_same (request_vote-SameMoney self t amount QuorumVote.reject self asked)
              (finish_p2p-Spares now t amount r self n.remote_nodes _ h))))
        (λ h. initiate-SameMoney self _ _ c)

  -- A quorum withdrawal that fails, for whatever reason, leaves the checkpoint of every node, in
  -- memory and stored, as it was.
  pub p2p_withdraw_fails-SameMoney :
      (now : Now) (started : ℕ) (new_id : String) (amount : ℤ) (r self : String) (c : Cluster)
      → let (c', (ok, reply)) =
          p2p_withdraw codec print commit_text quorum_text now started new_id amount r self c in
        ok ≡ false → SameMoney c c'
  unfolding p2p_withdraw
  p2p_withdraw_fails-SameMoney now started new_id amount r self c =
      guarded-Spares amount self
        (p2p_locked codec print commit_text quorum_text now started new_id amount r self) c
        (λ n. p2p_locked-Spares now started new_id amount r self n c)
