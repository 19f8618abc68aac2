-- ===== src/Node/Commits.antt =====
-- What the commit of a two-phase withdrawal and the application of a quorum's withdrawal do to a
-- node's checkpoint and log.
use mobile_money_simulator.Prelude.{
  ℕ, String, ◌≡◌, refl, sym, ◌∙◌, ap, inl, inr, ◌⊎◌, Bool, true, false, Option, none, some,
  if◌then◌else◌, ltb, Bool-cases, string_eq, nat_eq,
}
use mobile_money_simulator.Prelude.Int.{ℤ, pos, ◌+ℤ◌, ◌-ℤ◌, int_laws}
use mobile_money_simulator.Dict.{contains, erase}
use mobile_money_simulator.EventLog.{
  EventType, TransactionEvent, EventLog, add_event, is_duplicate, store_event, compute_balance,
}
use mobile_money_simulator.EventLog.Balance.{compute_balance-add_event}
use mobile_money_simulator.Checkpoint.{Codec}
use mobile_money_simulator.Node.{
  Node, Now, Reply, create_event, compute_current_balance, set_checkpoint, withdrawn_checkpoint,
  commit_event, p2p_apply,
}
use mobile_money_simulator.Node.Money.{IsKept, kept, IsStored, set_checkpoint-IsStored}

added :
    (event : TransactionEvent) (log : EventLog)
    → is_duplicate event log ≡ false
    → (add_event event log).0 ≡ store_event event log
unfolding add_event
added event log new = rw new refl

-- The balance that is computed once the event is in the log, less the event's amount.
balance_debited :
    (b : ℤ) (k : ℕ) (event : TransactionEvent) (log : EventLog)
    → event.event_type ≡ EventType.withdraw
    → is_duplicate event log ≡ false
    → compute_balance b k (store_event event log) -ℤ event.amount ≡ (
        if ltb k event.event_id
        then compute_balance b k log -ℤ event.amount -ℤ event.amount
        else compute_balance b k log -ℤ event.amount)
balance_debited b k event log withdraws new =
    ap (λ x. x -ℤ event.amount)
      (ap (λ l. compute_balance b k l) (sym (added event log new))
        ∙ compute_balance-add_event b k event log)
    ∙ rw (new, withdraws) (once (ltb k event.event_id) (compute_balance b k log))
  where
    once :
        (c : Bool) (x : ℤ)
        → (if c then x +ℤ (pos 0 -ℤ event.amount) else x) -ℤ event.amount
          ≡ (if c then x -ℤ event.amount -ℤ event.amount else x -ℤ event.amount)
    once true x = omega int_laws
    once false x = refl

module _ (codec : Codec) (print : ℕ → String) where
  pub commit_event_accepted :
      (transaction_id : String) (event : TransactionEvent) (n : Node)
      → is_duplicate event n.event_log ≡ false
      → let n' : Node = record n { event_log = store_event event n.event_log } in
        commit_event codec print transaction_id event n ≡ (
          record (set_checkpoint codec print
              (withdrawn_checkpoint (compute_current_balance n') event.amount event n.checkpoint)
              n') {
                prepared_transactions = erase transaction_id n.prepared_transactions;
                locked_funds =
                    (if contains transaction_id n.locked_funds
                      then erase transaction_id n.locked_funds
                      else n.locked_funds);
              },
          (true, Reply.withdrawal_committed),
        )
  unfolding commit_event add_event
  commit_event_accepted transaction_id event n new = rw new refl

  pub commit_event_refused :
      (transaction_id : String) (event : TransactionEvent) (n : Node)
      → is_duplicate event n.event_log ≡ true
      → commit_event codec print transaction_id event n ≡ (n, (false, Reply.failed_to_add))
  unfolding commit_event add_event
  commit_event_refused transaction_id event n dup = rw dup refl

  -- A prepared withdrawal is refused at its commit, and then checkpoint, storage and log are as
  -- before; or its event is in the log, and the checkpoint, in memory and stored, has the balance
  -- that was computed before, less the amount once, and once more if the event's id is later than
  -- the checkpoint's.
  pub commit_event_outcome :
      (transaction_id : String) (event : TransactionEvent) (n : Node)
      → event.event_type ≡ EventType.withdraw
      → let (n', (ok, reply)) = commit_event codec print transaction_id event n in
        let balance = compute_current_balance n -ℤ event.amount in
        ((ok ≡ false) × IsKept n n')
        ⊎ ((ok ≡ true)
            × (n'.checkpoint.balance ≡ (
                if ltb n.checkpoint.last_event_id event.event_id
                then balance -ℤ event.amount
                else balance))
            × (n'.event_log ≡ (add_event event n.event_log).0)
            × IsStored codec print n')
  unfolding set_checkpoint compute_current_balance
  commit_event_outcome transaction_id event n withdraws =
      elim (Bool-cases (is_duplicate event n.event_log)) [
        | inl dup ↦
            rw (commit_event_refused transaction_id event n dup)
              (inl (refl, kept refl refl refl refl refl refl refl))
        | inr new ↦ rw (commit_event_accepted transaction_id event n new) (
            inr (
              refl,
              balance_debited n.checkpoint.balance n.checkpoint.last_event_id event n.event_log
                  withdraws new,
              sym (added event n.event_log new),
              set_checkpoint-IsStored codec print _
                  (record n { event_log = store_event event n.event_log }),
            ))
      ]

  p2p_apply_accepted :
      (now : Now) (transaction_id : String) (amount : ℤ) (request_id : String) (n : Node)
      → let (created, bare) = create_event now EventType.withdraw amount request_id n in
        let event : TransactionEvent = record bare { transaction_id = transaction_id } in
        let n' : Node = record created { event_log = store_event event n.event_log } in
        is_duplicate event n.event_log ≡ false
        → p2p_apply codec print now transaction_id amount request_id n ≡ (
          set_checkpoint codec print
              (withdrawn_checkpoint (compute_current_balance n') amount event n.checkpoint)
              n',
          some event,
        )
  unfolding p2p_apply create_event add_event
  p2p_apply_accepted now transaction_id amount request_id n new = rw new refl

  -- What a quorum's withdrawal has done to `n` once it is applied.
  pub record IsApplied (event : TransactionEvent) (sent : Option TransactionEvent) (n n' : Node)
      : Type 0 where
    pub sent_it : sent ≡ some event
    pub balance : n'.checkpoint.balance ≡ (
        if ltb n.checkpoint.last_event_id event.event_id
        then compute_current_balance n -ℤ event.amount -ℤ event.amount
        else compute_current_balance n -ℤ event.amount)
    pub event_log : n'.event_log ≡ (add_event event n.event_log).0
    pub stored : IsStored codec print n'
    pub locked_funds : n'.locked_funds ≡ n.locked_funds
    pub prepared_transactions : n'.prepared_transactions ≡ n.prepared_transactions

  p2p_apply-IsApplied :
      (now : Now) (transaction_id : String) (amount : ℤ) (request_id : String) (n : Node)
      → let (n', sent) = p2p_apply codec print now transaction_id amount request_id n in
        let bare = (create_event now EventType.withdraw amount request_id n).1 in
        let event : TransactionEvent = record bare { transaction_id = transaction_id } in
        is_duplicate event n.event_log ≡ false → IsApplied event sent n n'
  unfolding set_checkpoint compute_current_balance create_event
  p2p_apply-IsApplied now transaction_id amount request_id n new =
      let (created, bare) = create_event now EventType.withdraw amount request_id n in
      let event : TransactionEvent = record bare { transaction_id = transaction_id } in
      rw (p2p_apply_accepted now transaction_id amount request_id n new) (record {
        sent_it = refl;
        balance =
            balance_debited n.checkpoint.balance n.checkpoint.last_event_id event n.event_log refl
              new;
        event_log = sym (added event n.event_log new);
        stored =
            set_checkpoint-IsStored codec print _
              (record created { event_log = store_event event n.event_log });
        locked_funds = refl;
        prepared_transactions = refl;
      })

  -- The withdrawal of a quorum is refused when it is applied, and then checkpoint, storage and log
  -- are as before; or its event is in the log, and the checkpoint, in memory and stored, has the
  -- balance that was computed before, less the amount once, and once more if the event's id is
  -- later than the checkpoint's.
  pub p2p_apply_outcome :
      (now : Now) (transaction_id : String) (amount : ℤ) (request_id : String) (n : Node)
      → let (n', sent) = p2p_apply codec print now transaction_id amount request_id n in
        let bare = (create_event now EventType.withdraw amount request_id n).1 in
        let event : TransactionEvent = record bare { transaction_id = transaction_id } in
        ((sent ≡ none) × IsKept n n') ⊎ IsApplied event sent n n'
  unfolding set_checkpoint compute_current_balance p2p_apply create_event add_event
  p2p_apply_outcome now transaction_id amount request_id n =
      let (created, bare) = create_event now EventType.withdraw amount request_id n in
      let event : TransactionEvent = record bare { transaction_id = transaction_id } in
      elim (Bool-cases (is_duplicate event n.event_log)) [
        | inl dup ↦ rw dup (inl (refl, kept refl refl refl refl refl refl refl))
        | inr new ↦ inr (p2p_apply-IsApplied now transaction_id amount request_id n new)
      ]
