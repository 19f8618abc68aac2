-- ===== src/Quorum/Locking.antt =====
-- The account locks of a quorum manager, at the initiator and at a voting peer.
use mobile_money_simulator.Prelude.{
  ℕ, String, ◌≡◌, refl, ◌↔◌, inl, inr, true, false, none, some, arith, if◌then◌else◌, Bool-cases,
  Option-cases, beq_eq, beq_refl, nat_eq, string_eq,
}
use mobile_money_simulator.Prelude.Int.{ℤ}
use mobile_money_simulator.Dict.{
  Dict, lookup, contains, insert, erase, lookup-insert, lookup-erase, contains-insert,
  contains-lookup, lookup-contains,
}
use mobile_money_simulator.Quorum.Majority.{initiate_withdrawal_known}
use Prim.Native.String.{◌++◌}
use mobile_money_simulator.Quorum.{
  QuorumVote, QuorumManager, account_locked, initiate_withdrawal, request_withdrawal_from_peer,
  apply_withdrawal, reject_withdrawal,
}

given_back :
    (a b : ℕ) (t : String) (locks : Dict ℕ String)
    → lookup a locks ≡ none
    → lookup b
        (if contains a (insert a t locks) then erase a (insert a t locks) else insert a t locks)
      ≡ lookup b locks
given_back a b t locks free = ground (
  arith,
  contains-insert a a t locks,
  lookup-erase a b (insert a t locks),
  lookup-insert a b t locks,
  beq_eq a b,
  beq_refl a,
)

initiate_withdrawal_refused :
    (u : String) (later a : ℕ) (y : ℤ) (s t : String) (m : QuorumManager)
    → lookup a m.account_locks ≡ some t
    → initiate_withdrawal u later a y s m ≡ (m, (false, account_locked t, ""))
unfolding initiate_withdrawal
initiate_withdrawal_refused u later a y s t m held = rw (held, initiate_withdrawal) refl

initiate_withdrawal_locks :
    (t : String) (now a : ℕ) (x : ℤ) (r : String) (m : QuorumManager)
    → (initiate_withdrawal t now a x r m).1.0 ≡ true
    → (lookup a m.account_locks ≡ none)
      × ((initiate_withdrawal t now a x r m).0.account_locks ≡ insert a t m.account_locks)
unfolding initiate_withdrawal
initiate_withdrawal_locks t now a x r m accepted = elim (Option-cases (lookup a m.account_locks)) [
  | inr (holder, e) ↦ ground arith
  | inl free ↦ (free, rw (free, initiate_withdrawal) refl)
]

-- Whoever initiates a withdrawal holds the account: a second one on that account is refused with
-- the holder's id and changes nothing. Both ways to end the first one give exactly that lock up.
pub initiate_withdrawal_exclusive :
    (t u : String) (now later a b : ℕ) (x y : ℤ) (r s reason : String) (m : QuorumManager)
    → (initiate_withdrawal t now a x r m).1.0 ≡ true
    → let m' = (initiate_withdrawal t now a x r m).0 in
      (initiate_withdrawal u later a y s m' ≡ (m', (false, account_locked t, "")))
      × (lookup b (apply_withdrawal t m').0.account_locks ≡ lookup b m.account_locks)
      × (lookup b (reject_withdrawal t reason m').0.account_locks ≡ lookup b m.account_locks)
unfolding apply_withdrawal reject_withdrawal
initiate_withdrawal_exclusive t u now later a b x y r s reason m accepted =
    let m' = (initiate_withdrawal t now a x r m).0 in
    let (known, _) = initiate_withdrawal_known t now a x r m accepted in
    let (free, locks) = initiate_withdrawal_locks t now a x r m accepted in
    let held : lookup a m'.account_locks ≡ some t =
      rw locks (ground (arith, lookup-insert a a t m.account_locks, beq_refl a)) in
    (
      initiate_withdrawal_refused u later a y s t m' held,
      rw (known, apply_withdrawal) (rw locks (given_back a b t m.account_locks free)),
      rw (known, reject_withdrawal) (rw locks (given_back a b t m.account_locks free)),
    )

-- A peer's vote on a withdrawal it did not initiate: ACCEPT exactly if the account is not locked.
-- It then locks the account, rejects every other request for it, and the calls that end the
-- withdrawal do not give this lock up, since the peer does not know the transaction.
pub request_withdrawal_from_peer_locks :
    (t u reason : String) (a : ℕ) (m : QuorumManager)
    → lookup t m.transactions ≡ none
    → let (m', vote) = request_withdrawal_from_peer t a m in
      ((vote ≡ QuorumVote.accept) ↔ (lookup a m.account_locks ≡ none))
      × (request_withdrawal_from_peer u a m' ≡ (m', QuorumVote.reject))
      × ((apply_withdrawal t m').0 ≡ m')
      × ((reject_withdrawal t reason m').0 ≡ m')
unfolding request_withdrawal_from_peer apply_withdrawal reject_withdrawal
request_withdrawal_from_peer_locks t u reason a m unknown =
    elim (Bool-cases (contains a m.account_locks)) [
      | inl held ↦ (
        (λ h. ground (arith, held), λ h. ground (arith, lookup-contains a m.account_locks)),
        ground arith,
        ground arith,
        ground arith,
      )
      | inr free ↦ (
        (λ h. contains-lookup a m.account_locks free, λ h. ground arith),
        ground (arith, contains-insert a a ("temp_" ++ t) m.account_locks, beq_refl a),
        ground arith,
        ground arith,
      )
    ]
