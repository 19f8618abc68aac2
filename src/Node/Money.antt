-- ===== src/Node/Money.antt =====
-- What a deposit and a withdrawal do to a node: its checkpoint, in memory and stored, and its log.
use mobile_money_simulator.Prelude.{
  ℕ, String, ◌≡◌, refl, sym, ◌∙◌, ap, inl, inr, ◌⊎◌, true, false, none, some, Bool-cases, arith,
  beq_refl, string_eq, nat_eq,
}
use mobile_money_simulator.Prelude.Int.{ℤ, pos, ◌+ℤ◌, ◌-ℤ◌, ◌≤ℤ◌, ◌<ℤ◌, ltb_ℤ, leb_ℤ, int_laws}
use mobile_money_simulator.EventLog.{
  EventType, TransactionEvent, add_event, is_duplicate, store_event,
}
use mobile_money_simulator.EventLog.Invariant.{IsWellFormed, add_event-IsWellFormed}
use mobile_money_simulator.EventLog.Balance.{
  deposited, total_after, compute_balance_optimized_total,
}
use mobile_money_simulator.Checkpoint.{Codec, Checkpoint, load_checkpoint}
use mobile_money_simulator.Checkpoint.Storage.{load_checkpoint-save_checkpoint}
use mobile_money_simulator.Node.{
  Node, Now, Reply, create_event, optimized_balance, checkpoint_key, set_checkpoint,
  deposited_checkpoint, withdrawn_checkpoint, deposit, withdraw_local,
}

-- A call that left the money, the log and the reservations as they were.
pub record IsKept (n n' : Node) : Type 0 where
  pub checkpoint : n'.checkpoint ≡ n.checkpoint
  pub storage : n'.storage ≡ n.storage
  pub event_log : n'.event_log ≡ n.event_log
  pub node_id : n'.node_id ≡ n.node_id
  pub account_id : n'.account_id ≡ n.account_id
  pub locked_funds : n'.locked_funds ≡ n.locked_funds
  pub prepared_transactions : n'.prepared_transactions ≡ n.prepared_transactions

pub kept :
    {n n' : Node}
    → n'.checkpoint ≡ n.checkpoint
    → n'.storage ≡ n.storage
    → n'.event_log ≡ n.event_log
    → n'.node_id ≡ n.node_id
    → n'.account_id ≡ n.account_id
    → n'.locked_funds ≡ n.locked_funds
    → n'.prepared_transactions ≡ n.prepared_transactions
    → IsKept n n'
kept c s e i a l p = record {
  checkpoint = c;
  storage = s;
  event_log = e;
  node_id = i;
  account_id = a;
  locked_funds = l;
  prepared_transactions = p;
}

positive_of : (a : ℤ) → leb_ℤ a (pos 0) ≡ false → pos 0 <ℤ a
positive_of a h = ground arith

covered_of : (a b : ℤ) → ltb_ℤ b a ≡ false → a ≤ℤ b
covered_of a b h = ground arith

module _ (codec : Codec) (print : ℕ → String) where
  -- The stored checkpoint is the one in memory.
  abbrev pub IsStored : Node → Type 0
  IsStored n =
      (now : ℕ)
      → load_checkpoint codec now (checkpoint_key print n.account_id n.node_id) n.storage
        ≡ some n.checkpoint

  pub set_checkpoint-IsStored :
      (c : Checkpoint) (n : Node) → IsStored (set_checkpoint codec print c n)
  unfolding set_checkpoint
  set_checkpoint-IsStored c n now =
      let key = checkpoint_key print n.account_id n.node_id in
      load_checkpoint-save_checkpoint codec now c key key n.storage ∙ rw (beq_refl key) refl

  -- A call that stored `event` and the checkpoint `c`.
  pub record IsBooked (event : TransactionEvent) (c : Checkpoint) (n n' : Node) : Type 0 where
    pub new : is_duplicate event n.event_log ≡ false
    pub event_log : n'.event_log ≡ (add_event event n.event_log).0
    pub checkpoint : n'.checkpoint ≡ c
    pub stored : IsStored n'
    pub locked_funds : n'.locked_funds ≡ n.locked_funds
    pub prepared_transactions : n'.prepared_transactions ≡ n.prepared_transactions

  booked :
      (event : TransactionEvent) (c : Checkpoint) (n added n' : Node)
      → is_duplicate event n.event_log ≡ false
      → added.event_log ≡ store_event event n.event_log
      → added.locked_funds ≡ n.locked_funds
      → added.prepared_transactions ≡ n.prepared_transactions
      → n' ≡ set_checkpoint codec print c added
      → IsBooked event c n n'
  unfolding set_checkpoint add_event
  booked event c n added n' new log locks prepared result = rw result (record {
    new = new;
    event_log = log ∙ rw new refl;
    checkpoint = refl;
    stored = set_checkpoint-IsStored c added;
    locked_funds = locks;
    prepared_transactions = prepared;
  })

  deposit_accepted :
      (now : Now) (amount : ℤ) (request_id : String) (n : Node)
      → let (created, event) = create_event now EventType.deposit amount request_id n in
        n.lock_free ≡ true
        → leb_ℤ amount (pos 0) ≡ false
        → is_duplicate event n.event_log ≡ false
        → deposit codec print now amount request_id n ≡ (
          set_checkpoint codec print
              (deposited_checkpoint amount event n.checkpoint)
              (record created { event_log = store_event event n.event_log }),
          (true, Reply.processed event.event_id),
        )
  unfolding deposit create_event add_event
  deposit_accepted now amount request_id n free positive new = rw (free, positive, new) refl

  withdraw_local_accepted :
      (now : Now) (amount : ℤ) (request_id : String) (n : Node)
      → let (created, event) = create_event now EventType.withdraw amount request_id n in
        ltb_ℤ (optimized_balance n) amount ≡ false
        → is_duplicate event n.event_log ≡ false
        → withdraw_local codec print now amount request_id n ≡ (
          set_checkpoint codec print
              (withdrawn_checkpoint (optimized_balance n) amount event n.checkpoint)
              (record created { event_log = store_event event n.event_log }),
          (some event, Reply.processed event.event_id),
        )
  unfolding withdraw_local create_event add_event
  withdraw_local_accepted now amount request_id n enough new = rw (enough, new) refl

  -- A deposit is refused, and then checkpoint, storage and log are as before; or its amount is
  -- positive, its event is in the log, and the checkpoint, in memory and stored, has the balance
  -- raised by the amount.
  pub deposit_outcome :
      (now : Now) (amount : ℤ) (request_id : String) (n : Node)
      → let (n', (ok, reply)) = deposit codec print now amount request_id n in
        let event = (create_event now EventType.deposit amount request_id n).1 in
        ((ok ≡ false) × IsKept n n')
        ⊎ ((ok ≡ true)
            × (reply ≡ Reply.processed event.event_id)
            × (pos 0 <ℤ amount)
            × IsBooked event (deposited_checkpoint amount event n.checkpoint) n n')
  unfolding deposit set_checkpoint add_event create_event
  deposit_outcome now amount request_id n =
      let event = (create_event now EventType.deposit amount request_id n).1 in
      elim (Bool-cases n.lock_free) [
        | inr busy ↦ rw busy (inl (refl, kept refl refl refl refl refl refl refl))
        | inl free ↦ elim (Bool-cases (leb_ℤ amount (pos 0))) [
          | inl low ↦ rw (free, low) (inl (refl, kept refl refl refl refl refl refl refl))
          | inr positive ↦ elim (Bool-cases (is_duplicate event n.event_log)) [
            | inl dup ↦
                rw (free, positive, dup) (inl (refl, kept refl refl refl refl refl refl refl))
            | inr new ↦
                let result = deposit_accepted now amount request_id n free positive new in
                inr (
                  ap (λ r. r.1.0) result,
                  ap (λ r. r.1.1) result,
                  positive_of amount positive,
                  booked event (deposited_checkpoint amount event n.checkpoint) n
                      (record (create_event now EventType.deposit amount request_id n).0 {
                        event_log = store_event event n.event_log;
                      })
                      _ new refl refl refl (ap (λ r. r.0) result),
                )
          ]
        ]
      ]

  -- The cases of a withdrawal, with the checkpoint as the code builds it.
  pub withdraw_local_cases :
      (now : Now) (amount : ℤ) (request_id : String) (n : Node)
      → let (n', (sent, reply)) = withdraw_local codec print now amount request_id n in
        let event = (create_event now EventType.withdraw amount request_id n).1 in
        ((sent ≡ none) × IsKept n n')
        ⊎ ((sent ≡ some event)
            × (reply ≡ Reply.processed event.event_id)
            × (amount ≤ℤ optimized_balance n)
            × IsBooked event
                (withdrawn_checkpoint (optimized_balance n) amount event n.checkpoint)
                n
                n')
  unfolding withdraw_local set_checkpoint add_event create_event
  withdraw_local_cases now amount request_id n =
      let event = (create_event now EventType.withdraw amount request_id n).1 in
      elim (Bool-cases (ltb_ℤ (optimized_balance n) amount)) [
        | inl short ↦ rw short (inl (refl, kept refl refl refl refl refl refl refl))
        | inr enough ↦ elim (Bool-cases (is_duplicate event n.event_log)) [
          | inl dup ↦ rw (enough, dup) (inl (refl, kept refl refl refl refl refl refl refl))
          | inr new ↦
              let result = withdraw_local_accepted now amount request_id n enough new in
              inr (
                ap (λ r. r.1.0) result,
                ap (λ r. r.1.1) result,
                covered_of amount (optimized_balance n) enough,
                booked event (withdrawn_checkpoint (optimized_balance n) amount event n.checkpoint)
                    n
                    (record (create_event now EventType.withdraw amount request_id n).0 {
                      event_log = store_event event n.event_log;
                    })
                    _ new refl refl refl (ap (λ r. r.0) result),
              )
        ]
      ]

  -- A withdrawal is refused, and then checkpoint, storage and log are as before; or its amount is
  -- covered by the balance that it was judged by, its event is new and added to the log, and the
  -- checkpoint, which is also the stored one, has that balance less the amount, the amount more in
  -- its withdrawals, the same deposits, and this withdrawal as the last one.
  pub withdraw_local_outcome :
      (now : Now) (amount : ℤ) (request_id : String) (n : Node)
      → let (n', (sent, reply)) = withdraw_local codec print now amount request_id n in
        let event = (create_event now EventType.withdraw amount request_id n).1 in
        ((sent ≡ none) × IsKept n n')
        ⊎ ((sent ≡ some event)
            × (reply ≡ Reply.processed event.event_id)
            × (amount ≤ℤ optimized_balance n)
            × (n'.checkpoint.balance ≡ optimized_balance n -ℤ amount)
            × (n'.checkpoint.total_withdrawals ≡ n.checkpoint.total_withdrawals +ℤ amount)
            × (n'.checkpoint.total_deposits ≡ n.checkpoint.total_deposits)
            × (n'.checkpoint.last_withdraw_amount ≡ amount)
            × (n'.checkpoint.last_event_id ≡ event.event_id)
            × (is_duplicate event n.event_log ≡ false)
            × (n'.event_log ≡ (add_event event n.event_log).0)
            × IsStored n')
  withdraw_local_outcome now amount request_id n =
      elim (withdraw_local_cases now amount request_id n) [
        | inl refused ↦ inl refused
        | inr (sent, reply, covered, b) ↦ inr (
          sent,
          reply,
          covered,
          ap (λ c. c.balance) b.checkpoint,
          ap (λ c. c.total_withdrawals) b.checkpoint,
          ap (λ c. c.total_deposits) b.checkpoint,
          ap (λ c. c.last_withdraw_amount) b.checkpoint,
          ap (λ c. c.last_event_id) b.checkpoint,
          b.new,
          b.event_log,
          b.stored,
        )
      ]

  -- The money that a call leaves: the log is well formed, and the checkpoint is stored.
  pub record IsSound (n : Node) : Type 0 where
    pub well_formed : IsWellFormed n.event_log
    pub stored : IsStored n

  pub IsBooked-IsSound :
      (event : TransactionEvent) (c : Checkpoint) (n n' : Node)
      → IsSound n
      → IsBooked event c n n'
      → IsSound n'
  IsBooked-IsSound event c n n' sound b = record {
    well_formed = rw b.event_log (add_event-IsWellFormed event n.event_log sound.well_formed);
    stored = b.stored;
  }

  optimized_total :
      (n : Node)
      → optimized_balance n
        ≡ n.checkpoint.balance
          +ℤ total_after deposited n.checkpoint.last_event_id n.event_log
          -ℤ n.checkpoint.last_withdraw_amount
  unfolding optimized_balance
  optimized_total n =
      compute_balance_optimized_total n.checkpoint.balance n.checkpoint.last_withdraw_amount
        n.checkpoint.last_event_id n.event_log

  pub IsKept-IsSound : (n n' : Node) → IsSound n → IsKept n n' → IsSound n'
  IsKept-IsSound n n' sound k = record {
    well_formed = rw k.event_log sound.well_formed;
    stored = λ now. rw (k.node_id, k.account_id, k.storage, k.checkpoint) (sound.stored now);
  }

  -- After a withdrawal that went through, the balance by which the next one is judged has lost
  -- the amount twice, beside the deposits later than its event.
  pub withdraw_local_counts_twice :
      (now : Now) (amount : ℤ) (request_id : String) (n : Node)
      → let (n', (sent, reply)) = withdraw_local codec print now amount request_id n in
        let event = (create_event now EventType.withdraw amount request_id n).1 in
        sent ≡ some event
        → optimized_balance n'
          ≡ optimized_balance n
            -ℤ amount
            -ℤ amount
            +ℤ total_after deposited event.event_id n'.event_log
  withdraw_local_counts_twice now amount request_id n sent =
      elim (withdraw_local_cases now amount request_id n) [
        | inl refused ↦ none_some (sym refused.0 ∙ sent)
        | inr accepted ↦ judged _ _ accepted.3.checkpoint
      ]
    where
      none_some : {A : Type 0} {e : TransactionEvent} → none ≡ some e → A
      none_some h = cc

      judged :
          (n' : Node) (b : ℤ)
          → let event = (create_event now EventType.withdraw amount request_id n).1 in
            n'.checkpoint ≡ withdrawn_checkpoint b amount event n.checkpoint
            → optimized_balance n'
              ≡ b -ℤ amount -ℤ amount +ℤ total_after deposited event.event_id n'.event_log
      judged n' b e = optimized_total n' ∙ rw e (omega int_laws)
