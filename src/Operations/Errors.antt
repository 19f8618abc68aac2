-- ===== src/Operations/Errors.antt =====
-- When a withdrawal succeeds, and what a commit that raises leaves behind.
use mobile_money_simulator.Prelude.{
  ◌≡◌, refl, true, false, not, [], ◌∷◌, ◌++◌, some, arith, ◌==◌, beq_refl, nat_eq, string_eq,
}
use mobile_money_simulator.Prelude.Int.{ℤ, pos, ◌+ℤ◌, ◌-ℤ◌, ltb_ℤ, leb_ℤ, int_laws}
use mobile_money_simulator.Dict.{lookup, insert, lookup-insert}
use mobile_money_simulator.Database.{
  Account, Transaction, TransactionType, Database, add_transaction, has_request, with_balance,
}
use mobile_money_simulator.Events.{
  Event, EventStore, append, applied, mark_applied, get_event, create_withdraw_event, new_event,
}
use mobile_money_simulator.Replication.{queue_event}
use mobile_money_simulator.Operations.{Server, Context, Reply}
use mobile_money_simulator.Operations.Single.{
  Call, source_event, finish, booking, receipt, withdraw, withdraw_commit, withdraw_event,
}
use mobile_money_simulator.Operations.Ledger.{debit_accepted, lookup_written}

-- The account is there, active, and holds the amount, which is positive.
pub record CanWithdraw (call : Call) (s : Server) : Type 0 where
  pub account : Account
  pub found : lookup call.account_id s.database.accounts ≡ some account
  pub positive : leb_ℤ call.amount (pos 0) ≡ false
  pub active : not (account.account_status == "active") ≡ false
  pub enough : ltb_ℤ account.balance call.amount ≡ false

abbrev pub account_after : (c : Context) (call : Call) (s : Server) → CanWithdraw call s → Account
account_after c call s h = with_balance c.server_id (h.account.balance -ℤ call.amount) h.account

abbrev pub withdrawal : (c : Context) (call : Call) (s : Server) → CanWithdraw call s → Transaction
withdrawal c call s h =
    let a = account_after c call s h in
    booking c call TransactionType.withdraw (a.balance +ℤ call.amount) a.balance

abbrev pub written : (c : Context) (call : Call) (s : Server) → CanWithdraw call s → Database
written c call s h = record s.database {
  accounts = insert call.account_id (account_after c call s h) s.database.accounts;
}

withdraw_accepted :
    (c : Context) (call : Call) (s : Server) (h : CanWithdraw call s)
    → let a = account_after c call s h in
      withdraw c call s
      ≡ finish
          (add_transaction (withdrawal c call s h) (written c call s h))
          (Reply.withdrawal_successful
            (receipt c call.transaction_id call.amount a.balance call.uuid s))
          (source_event (withdraw_event c call a s) s)
unfolding withdraw withdraw_commit
withdraw_accepted c call s h =
    let a = account_after c call s h in
    rw (h.positive, h.found, h.active, h.enough)
      (rw
        (debit_accepted c call.account_id call.amount h.account s.database h.found h.enough
          h.active)
        (rw (lookup_written call.account_id a s.database.accounts) refl))

-- A withdrawal that the account can bear, under a request id that is not booked yet, succeeds: the
-- account then holds the amount less, and the transaction is in the log, with the balances before
-- and after.
pub withdraw_succeeds :
    (c : Context) (call : Call) (s : Server) (h : CanWithdraw call s)
    → has_request call.request_id s.database.transactions ≡ false
    → let r = withdraw c call s in
      let a = account_after c call s h in
      (r.1.0 ≡ true)
      × (lookup call.account_id r.0.database.accounts ≡ some a)
      × (a.balance ≡ h.account.balance -ℤ call.amount)
      × (r.0.database.transactions
          ≡ s.database.transactions
            ++ booking c call TransactionType.withdraw h.account.balance a.balance ∷ [])
unfolding add_transaction
withdraw_succeeds c call s h fresh =
    let a = account_after c call s h in
    rw (withdraw_accepted c call s h) (
      rw (fresh, add_transaction)
        (
          refl,
          lookup_written call.account_id a s.database.accounts,
          refl,
          rw (restored h.account.balance call.amount) refl,
        ))
  where
    restored : (b x : ℤ) → b -ℤ x +ℤ x ≡ b
    restored b x = omega int_laws

-- A withdrawal that the account can bear, under a request id that a transaction already has, with
-- event sourcing started: the call fails and the tables are as before, but the event, with the
-- lower balance, has been stored as applied and waits to be sent to the other servers.
pub withdraw_repeated :
    (c : Context) (call : Call) (s : Server) (h : CanWithdraw call s)
    → has_request call.request_id s.database.transactions ≡ true
    → s.event_sourcing ≡ true
    → let r = withdraw c call s in
      let e = applied (withdraw_event c call (account_after c call s h) s) in
      (r.1 ≡ (false, Reply.failed))
      × (r.0.database ≡ s.database)
      × (get_event call.uuid r.0.event_store ≡ some e)
      × (r.0.replication_manager.pending_replication
          ≡ s.replication_manager.pending_replication ++ e ∷ [])
      × (e.balance_after ≡ some (h.account.balance -ℤ call.amount))
unfolding add_transaction source_event get_event create_withdraw_event new_event queue_event
withdraw_repeated c call s h taken on =
    let e = withdraw_event c call (account_after c call s h) s in
    rw (withdraw_accepted c call s h) (
      rw (taken, add_transaction)
        (rw (on, source_event)
          (
            refl,
            refl,
            stored e (append e s.event_store).0 (lookup_appended e s.event_store),
            refl,
            refl,
          )))
  where
    lookup_appended :
        (e : Event) (st : EventStore) → lookup e.event_id (append e st).0.events ≡ some e
    lookup_appended e st =
        unfold append in
        ground (arith, lookup-insert e.event_id e.event_id e st.events, beq_refl e.event_id)

    stored :
        (e : Event) (st : EventStore)
        → lookup e.event_id st.events ≡ some e
        → lookup e.event_id (mark_applied e.event_id st).0.events ≡ some (applied e)
    stored e st found =
        unfold mark_applied in
        rw (found, mark_applied)
          (ground
            (arith, lookup-insert e.event_id e.event_id (applied e) st.events, beq_refl e.event_id))
