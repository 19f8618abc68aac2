-- ===== src/Cluster/Money.antt =====
-- The calls between nodes, by what they do to checkpoints.
use mobile_money_simulator.Prelude.{
  String, ◌≡◌, refl, sym, ◌∙◌, ap, inl, inr, Bool, true, false, List, [], ◌∷◌, Option, none, some,
  if◌then◌else◌, Bool-cases, Option-cases, ◌==◌, beq_eq, string_eq, nat_eq,
}
use mobile_money_simulator.Prelude.Int.{ℤ, ltb_ℤ, ◌-ℤ◌}
use mobile_money_simulator.Dict.{lookup, insert, values, lookup-insert}
use mobile_money_simulator.EventLog.{TransactionEvent}
use mobile_money_simulator.Checkpoint.{Checkpoint, Storage}
use mobile_money_simulator.Commit
use mobile_money_simulator.Commit.{
  ReplicaVote, can_commit, create_transaction, record_prepare_vote, rollback_transaction,
}
use mobile_money_simulator.Quorum
use mobile_money_simulator.Quorum.{
  QuorumVote, has_quorum, initiate_withdrawal, record_peer_vote, reject_withdrawal,
}
use mobile_money_simulator.Node.{
  Node, Now, create_event, merge_remote, optimized_balance, sum, prepare, receive_event,
  rollback_coordinated_withdraw,
}
use mobile_money_simulator.Cluster.{Cluster, on, synced, prepare_at, vote_at, coordinate, initiate}
use mobile_money_simulator.Cluster.Handlers.{
  request_prepare, prepare_remotes, rollback_everywhere, request_vote, request_votes,
}

-- A node's checkpoint, in memory and stored.
abbrev pub money : Node → Checkpoint × Storage
money n = (n.checkpoint, n.storage)

abbrev pub money_at : Option Node → Option (Checkpoint × Storage)
money_at none = none
money_at (some n) = some (money n)

-- Every node has the checkpoint that it had.
pub record SameMoney (c c' : Cluster) : Type 0 where
  pub at : (node_id : String) → money_at (lookup node_id c') ≡ money_at (lookup node_id c)

pub unchanged : (c : Cluster) → SameMoney c c
unchanged c = record { at = λ j. refl }

pub then_same : {a b c : Cluster} → SameMoney a b → SameMoney b c → SameMoney a c
then_same p q = record { at = λ j. q.at j ∙ p.at j }

pub insert-SameMoney :
    (node_id : String) (n n' : Node) (c : Cluster)
    → lookup node_id c ≡ some n
    → money n' ≡ money n
    → SameMoney c (insert node_id n' c)
insert-SameMoney node_id n n' c found same = record {
  at = λ j. ap money_at (lookup-insert node_id j n' c) ∙ elim (Bool-cases (node_id == j)) [
    | inl here ↦ rw (here, ← beq_eq node_id j here) (ap some same ∙ sym (ap money_at found))
    | inr other ↦ rw other refl
  ];
}

pub on-SameMoney :
    {A : Type 0} (node_id : String) (d : A) (f : Node → Node × A) (c : Cluster)
    → ((n : Node) → money (f n).0 ≡ money n)
    → SameMoney c (on node_id d f c).0
unfolding on
on-SameMoney node_id d f c same = elim (Option-cases (lookup node_id c)) [
  | inl absent ↦ rw (absent, on) (unchanged c)
  | inr (n, found) ↦ rw (found, on) (insert-SameMoney node_id n (f n).0 c found (same n))
]

if-money :
    {A : Type 0} (b : Bool) (x y : Node × A) (m : Checkpoint × Storage)
    → money x.0 ≡ m
    → money y.0 ≡ m
    → money (if b then x else y).0 ≡ m
if-money true x y m p q = p
if-money false x y m p q = q

pub receive-money :
    (event : TransactionEvent) (n : Node) → money (receive_event event n).0 ≡ money n
unfolding receive_event
receive-money event n = if-money n.lock_free _ _ (money n) refl refl

prepare-money :
    (now : Now) (t : String) (amount : ℤ) (r : String) (n : Node)
    → money (prepare now t amount r n).0 ≡ money n
unfolding prepare create_event
prepare-money now t amount r n =
    if-money (ltb_ℤ (optimized_balance n -ℤ sum (values n.locked_funds)) amount) _ _ (money n) refl
      refl

pub synced-money : (c : Cluster) (n : Node) → money (synced c n) ≡ money n
unfolding synced merge_remote
synced-money c n = refl

prepare_at-money :
    (c : Cluster) (now : Now) (t : String) (amount : ℤ) (r : String) (n : Node)
    → money (prepare_at c now t amount r n).0 ≡ money n
unfolding prepare_at
prepare_at-money c now t amount r n =
    if-money n.lock_free _ _ (money n)
      (prepare-money now t amount r (synced c n) ∙ synced-money c n) refl

rollback-money : (t : String) (n : Node) → money (rollback_coordinated_withdraw t n).0 ≡ money n
unfolding rollback_coordinated_withdraw
rollback-money t n = if-money n.lock_free _ _ (money n) refl refl

vote_at-money : (c : Cluster) (amount : ℤ) (n : Node) → money (vote_at c amount n).0 ≡ money n
unfolding vote_at
vote_at-money c amount n = if-money n.lock_free _ _ (money n) (synced-money c n) refl

-- The calls on the two managers do not touch the money.
pub coordinate-SameMoney :
    {A : Type 0} (self : String) (d : A) (f : Commit.CommitManager → Commit.CommitManager × A)
    (c : Cluster)
    → SameMoney c (on self d (coordinate f) c).0
coordinate-SameMoney self d f c = on-SameMoney self d (coordinate f) c (λ n. refl)

pub initiate-SameMoney :
    {A : Type 0} (self : String) (d : A) (f : Quorum.QuorumManager → Quorum.QuorumManager × A)
    (c : Cluster)
    → SameMoney c (on self d (initiate f) c).0
initiate-SameMoney self d f c = on-SameMoney self d (initiate f) c (λ n. refl)

pub request_prepare-SameMoney :
    (clock : String → Now) (self t : String) (amount : ℤ) (r : String) (raised : ReplicaVote)
    (target : String) (c : Cluster)
    → SameMoney c (request_prepare clock self t amount r raised target c)
unfolding request_prepare
request_prepare-SameMoney clock self t amount r raised target c =
    then_same
      (on-SameMoney target raised (prepare_at c (clock target) t amount r) c
        (prepare_at-money c (clock target) t amount r))
      (coordinate-SameMoney self tt _ _)

pub prepare_remotes-SameMoney :
    (clock : String → Now) (self t : String) (amount : ℤ) (r : String) (remotes : List String)
    (c : Cluster)
    → SameMoney c (prepare_remotes clock self t amount r remotes c)
unfolding prepare_remotes
prepare_remotes-SameMoney clock self t amount r [] c = unchanged c
prepare_remotes-SameMoney clock self t amount r (remote ∷ rest) c =
    then_same (request_prepare-SameMoney clock self t amount r ReplicaVote.timeout remote c)
      (prepare_remotes-SameMoney clock self t amount r rest _)

pub rollback_everywhere-SameMoney :
    (t : String) (ids : List String) (c : Cluster) → SameMoney c (rollback_everywhere t ids c)
unfolding rollback_everywhere
rollback_everywhere-SameMoney t [] c = unchanged c
rollback_everywhere-SameMoney t (target ∷ rest) c =
    then_same (on-SameMoney target _ (rollback_coordinated_withdraw t) c (rollback-money t))
      (rollback_everywhere-SameMoney t rest _)

pub request_vote-SameMoney :
    (self t : String) (amount : ℤ) (raised : QuorumVote) (target : String) (c : Cluster)
    → SameMoney c (request_vote self t amount raised target c)
unfolding request_vote
request_vote-SameMoney self t amount raised target c =
    then_same (on-SameMoney target raised (vote_at c amount) c (vote_at-money c amount))
      (initiate-SameMoney self tt _ _)

pub request_votes-SameMoney :
    (self t : String) (amount : ℤ) (remotes : List String) (c : Cluster)
    → SameMoney c (request_votes self t amount remotes c)
unfolding request_votes
request_votes-SameMoney self t amount [] c = unchanged c
request_votes-SameMoney self t amount (remote ∷ rest) c =
    then_same (request_vote-SameMoney self t amount QuorumVote.timeout remote c)
      (request_votes-SameMoney self t amount rest _)
