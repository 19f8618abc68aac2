-- ===== src/Quorum/Majority.antt =====
-- When the votes make a quorum.
use mobile_money_simulator.Prelude.{
  ℕ, suc, ◌+◌, ◌≤◌, String, ◌≡◌, refl, sym, ◌∙◌, ap, inl, inr, true, false, none, some, List, [],
  ◌∷◌, ◌++◌, arith, leb, length, length-append, elem, remove_first, All, Option-cases, nat_eq,
  string_eq, beq_refl, beq_eq, ◌==◌,
}
use mobile_money_simulator.Prelude.Int.{ℤ}
use mobile_money_simulator.Dict.{lookup, lookup-insert}
use mobile_money_simulator.Quorum.{
  QuorumVote, QuorumTransaction, QuorumManager, majority, new_manager, add_vote, fresh_transaction,
  initiate_withdrawal, record_peer_vote, has_quorum,
}

-- The votes of one transaction, in the order in which they are recorded.
abbrev pub record_votes : String → List (String × QuorumVote) → QuorumManager → QuorumManager
record_votes t [] m = m
record_votes t ((r, v) ∷ vs) m = record_votes t vs (record_peer_vote t r v m)

-- The nodes whose votes are ACCEPT.
abbrev pub accepters : List (String × QuorumVote) → List String
accepters [] = []
accepters ((r, v) ∷ vs) = elim v [ QuorumVote.accept ↦ r ∷ accepters vs | _ ↦ accepters vs ]

-- The manager after an initiation and its votes.
abbrev pub voted :
    String → ℕ → ℕ → ℤ → String → List (String × QuorumVote) → QuorumManager → QuorumManager
voted t now a x r vs m = record_votes t vs (initiate_withdrawal t now a x r m).0

record_votes_known :
    (t : String) (vs : List (String × QuorumVote)) (m : QuorumManager) (txn : QuorumTransaction)
    → lookup t m.transactions ≡ some txn
    → (has_quorum t (record_votes t vs m)).0
      ≡ leb m.quorum_size (txn.accept_votes + length (accepters vs))
unfolding has_quorum record_peer_vote
record_votes_known t [] m txn found = rw (found, has_quorum) (ground arith)
record_votes_known t ((r, v) ∷ vs) m txn found =
    let txn' = add_vote r v txn in
    let m' = record_peer_vote t r v m in
    let found' : lookup t m'.transactions ≡ some txn' =
      ground (arith, found, lookup-insert t t txn' m.transactions, beq_refl t) in
    let size : m'.quorum_size ≡ m.quorum_size = ground (arith, found) in
    record_votes_known t vs m' txn' found' ∙ rw size (counted v txn.accept_votes)
  where
    counted :
        (v : QuorumVote) (n : ℕ)
        → leb m.quorum_size
            ((elim v as (λ _. ℕ) [ QuorumVote.accept ↦ n + 1 | _ ↦ n ]) + length (accepters vs))
          ≡ leb m.quorum_size (n + length (accepters ((r, v) ∷ vs)))
    counted QuorumVote.accept n = ap (λ k. leb m.quorum_size k) (omega arith)
    counted QuorumVote.reject n = refl
    counted QuorumVote.timeout n = refl

pub initiate_withdrawal_known :
    (t : String) (now a : ℕ) (x : ℤ) (r : String) (m : QuorumManager)
    → (initiate_withdrawal t now a x r m).1.0 ≡ true
    → (lookup t (initiate_withdrawal t now a x r m).0.transactions
        ≡ some (fresh_transaction t now m.node_id a x r))
      × ((initiate_withdrawal t now a x r m).0.quorum_size ≡ m.quorum_size)
unfolding initiate_withdrawal
initiate_withdrawal_known t now a x r m accepted = elim (Option-cases (lookup a m.account_locks)) [
  | inr (holder, e) ↦ ground arith
  | inl free ↦
      let txn = fresh_transaction t now m.node_id a x r in
      rw (free, initiate_withdrawal)
        (ground (arith, lookup-insert t t txn m.transactions, beq_refl t), refl)
]

-- After a withdrawal is initiated and votes are recorded for it, it has its quorum exactly if at
-- least as many ACCEPT votes are recorded as the quorum size, whatever the other votes are.
pub has_quorum_votes :
    (t : String) (now a : ℕ) (x : ℤ) (r : String) (m : QuorumManager)
    (vs : List (String × QuorumVote))
    → (initiate_withdrawal t now a x r m).1.0 ≡ true
    → (has_quorum t (voted t now a x r vs m)).0 ≡ leb m.quorum_size (length (accepters vs))
has_quorum_votes t now a x r m vs accepted =
    let txn = fresh_transaction t now m.node_id a x r in
    let (known, size) = initiate_withdrawal_known t now a x r m accepted in
    record_votes_known t vs (initiate_withdrawal t now a x r m).0 txn known
    ∙ rw size (ap (λ k. leb m.quorum_size k) (omega arith))

abbrev pub IsDistinct : List String → Type 0
IsDistinct [] = Unit
IsDistinct (x ∷ xs) = (elem x xs ≡ false) × IsDistinct xs

length-remove_first :
    (x : String) (ys : List String) → elem x ys ≡ true → length (remove_first x ys) + 1 ≡ length ys
length-remove_first x [] h = cc
length-remove_first x (y ∷ ys) h = ground (arith, length-remove_first x ys)

elem-remove_first :
    (x z : String) (ys : List String)
    → (z == x) ≡ false
    → elem z ys ≡ true
    → elem z (remove_first x ys) ≡ true
elem-remove_first x z [] ne h = cc
elem-remove_first x z (y ∷ ys) ne h =
    ground (arith, elem-remove_first x z ys, beq_eq x y, beq_eq z y, beq_refl x)

within_rest :
    (x : String) (xs ys : List String)
    → elem x xs ≡ false
    → All (λ z. elem z ys ≡ true) xs
    → All (λ z. elem z (remove_first x ys) ≡ true) xs
within_rest x [] ys new h = tt
within_rest x (z ∷ zs) ys new h = (
  elem-remove_first x z ys (ground (arith, beq_eq z x, beq_refl x)) h.0,
  within_rest x zs ys (ground arith) h.1,
)

-- Distinct elements of a list are no more than its length.
length-le-length :
    (xs ys : List String) → IsDistinct xs → All (λ z. elem z ys ≡ true) xs → length xs ≤ length ys
length-le-length [] ys d h = omega arith
length-le-length (x ∷ xs) ys d h = omega (
  arith,
  length-le-length xs (remove_first x ys) d.1 (within_rest x xs ys d.0 h.1),
  length-remove_first x ys h.0,
)

-- A majority is more than half of the nodes, and no more than all of them.
majority_bounds : (n : ℕ) → suc n ≤ majority n + majority n
unfolding majority
majority_bounds n = omega arith

-- Two withdrawals that are voted on by the same nodes cannot both have a quorum of the default
-- size, if every ACCEPT comes from one of the nodes and no node accepts twice.
pub majorities_exclude :
    (nodes : List String) (i j t u : String) (now a b : ℕ) (x y : ℤ) (r s : String)
    (vs ws : List (String × QuorumVote))
    → IsDistinct (accepters vs ++ accepters ws)
    → All (λ z. elem z nodes ≡ true) (accepters vs ++ accepters ws)
    → (has_quorum t (voted t now a x r vs (new_manager i none (length nodes)))).0 ≡ true
    → (has_quorum u (voted u now b y s ws (new_manager j none (length nodes)))).0 ≡ false
unfolding new_manager initiate_withdrawal
majorities_exclude nodes i j t u now a b x y r s vs ws distinct among won =
    let n = length nodes in
    let all : length (accepters vs ++ accepters ws) ≤ n =
      length-le-length (accepters vs ++ accepters ws) nodes distinct among in
    let first : leb (majority n) (length (accepters vs)) ≡ true =
      sym (has_quorum_votes t now a x r (new_manager i none n) vs refl) ∙ won in
    has_quorum_votes u now b y s (new_manager j none n) ws refl
    ∙ below n (length (accepters vs)) (length (accepters ws)) first
        (rw (length-append (accepters vs) (accepters ws)) at all)
  where
    below : (n k l : ℕ) → leb (majority n) k ≡ true → k + l ≤ n → leb (majority n) l ≡ false
    below n k l h fits = ground (arith, majority_bounds n)
