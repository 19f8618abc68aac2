-- ===== src/Node/Replica.antt =====
-- What the replica of a two-phase withdrawal reserves, and what a rollback does to it.
use mobile_money_simulator.Prelude.{
  String, ◌≡◌, refl, inl, inr, ◌⊎◌, true, false, [], ◌∷◌, ◌++◌, if◌then◌else◌, Bool-cases, arith,
  beq_refl, string_eq, nat_eq,
}
use mobile_money_simulator.Prelude.Int.{ℤ, ◌+ℤ◌, ◌-ℤ◌, ◌≤ℤ◌, ltb_ℤ, int_laws, -ℤ_parts, +ℤ_parts}
use mobile_money_simulator.Dict.{
  Dict, contains, insert, erase, values, contains-insert, insert_fresh, erase-insert,
}
use mobile_money_simulator.EventLog.{EventType, TransactionEvent}
use mobile_money_simulator.Commit.{ReplicaVote}
use mobile_money_simulator.Node.{
  Node, Now, create_event, optimized_balance, sum, prepare, rollback_coordinated_withdraw,
}

abbrev pub locked_total : Node → ℤ
locked_total n = sum (values n.locked_funds)

sum_snoc :
    (k : String) (x : ℤ) (d : Dict String ℤ) → sum (values (d ++ (k, x) ∷ [])) ≡ sum (values d) +ℤ x
sum_snoc k x [] = omega int_laws
sum_snoc k x ((j, y) ∷ d) = rw (sum_snoc k x d) (omega int_laws)

room : (b l a : ℤ) → ltb_ℤ (b -ℤ l) a ≡ false → l +ℤ a ≤ℤ b
room b l a h = ground (arith, -ℤ_parts b l, +ℤ_parts l a)

no_room : (b l a : ℤ) → ltb_ℤ (b -ℤ l) a ≡ true → l +ℤ a ≤ℤ b → ⊥
no_room b l a h k = ground (arith, -ℤ_parts b l, +ℤ_parts l a)

-- For a transaction that has nothing locked, a replica votes ACK exactly when the funds that are
-- locked leave room for the amount. On ACK the locked funds grow by the amount, within the balance
-- that the vote was judged by, and that balance is as before; on NACK the node is as before.
pub prepare_reserves :
    (now : Now) (transaction_id : String) (amount : ℤ) (request_id : String) (n : Node)
    → contains transaction_id n.locked_funds ≡ false
    → let (n', vote) = prepare now transaction_id amount request_id n in
      ((vote ≡ ReplicaVote.ack)
        × (locked_total n +ℤ amount ≤ℤ optimized_balance n)
        × (locked_total n' ≡ locked_total n +ℤ amount)
        × (optimized_balance n' ≡ optimized_balance n))
      ⊎ ((vote ≡ ReplicaVote.nack)
          × (locked_total n +ℤ amount ≤ℤ optimized_balance n → ⊥)
          × (n' ≡ n))
unfolding prepare create_event optimized_balance
prepare_reserves now transaction_id amount request_id n new =
    elim (Bool-cases (ltb_ℤ (optimized_balance n -ℤ locked_total n) amount)) [
      | inl short ↦
          rw short (inr (refl, no_room (optimized_balance n) (locked_total n) amount short, refl))
      | inr enough ↦ rw enough (
          inl (
            refl,
            room (optimized_balance n) (locked_total n) amount enough,
            rw (insert_fresh transaction_id amount n.locked_funds new)
                (sum_snoc transaction_id amount n.locked_funds),
            refl,
          ))
    ]

released :
    {V : Type 0} (k : String) (v : V) (d : Dict String V)
    → contains k d ≡ false
    → (if contains k (insert k v d) then erase k (insert k v d) else insert k v d) ≡ d
released k v d new = rw (contains-insert k k v d, beq_refl k) (erase-insert k v d new)

-- A transaction that a replica did not know, prepared with either vote and then rolled back,
-- leaves the node as it was but for its generator of event ids.
pub rollback-prepare :
    (now : Now) (transaction_id : String) (amount : ℤ) (request_id : String) (n : Node)
    → contains transaction_id n.locked_funds ≡ false
    → contains transaction_id n.prepared_transactions ≡ false
    → n.lock_free ≡ true
    → let n' = (prepare now transaction_id amount request_id n).0 in
      (rollback_coordinated_withdraw transaction_id n').0
      ≡ record n { event_id_generator = n'.event_id_generator }
unfolding prepare create_event rollback_coordinated_withdraw
rollback-prepare now transaction_id amount request_id n no_lock no_event free =
    elim (Bool-cases (ltb_ℤ (optimized_balance n -ℤ locked_total n) amount)) [
      | inl short ↦ rw (short, free, no_lock, no_event) refl
      | inr enough ↦
          let prepared : TransactionEvent =
            record (create_event now EventType.withdraw amount request_id n).1 {
              transaction_id = transaction_id;
            } in
          rw
            (
              enough,
              free,
              released transaction_id amount n.locked_funds no_lock,
              released transaction_id prepared n.prepared_transactions no_event,
            )
            refl
    ]
