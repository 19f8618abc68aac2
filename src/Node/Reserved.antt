-- ===== src/Node/Reserved.antt =====
-- Locked funds against the withdrawals that a replica has prepared.
use mobile_money_simulator.Prelude.{
  ℕ, String, ◌≡◌, refl, sym, ◌∙◌, inl, inr, Option, none, some, if◌then◌else◌, Bool-cases, beq_eq,
  string_eq, nat_eq, ◌==◌,
}
use mobile_money_simulator.Prelude.Int.{ℤ, ltb_ℤ, ◌-ℤ◌}
use mobile_money_simulator.Dict.{
  Dict, lookup, contains, insert, erase, values, lookup-insert, lookup-erase, erase_absent,
}
use mobile_money_simulator.EventLog.{EventType, TransactionEvent, is_duplicate}
use mobile_money_simulator.Checkpoint.{Codec}
use mobile_money_simulator.Node.{
  Node, Now, create_event, prepare, sum, optimized_balance, rollback_coordinated_withdraw,
  commit_event,
}
use mobile_money_simulator.Node.Commits.{commit_event_accepted, commit_event_refused}

-- A prepared event is a withdrawal that carries the id it is kept under.
abbrev pub IsPrepared : String → Option TransactionEvent → Type 0
IsPrepared t none = Unit
IsPrepared t (some e) = (e.event_type ≡ EventType.withdraw) × (e.transaction_id ≡ t)

abbrev pub amount_of : Option TransactionEvent → Option ℤ
amount_of none = none
amount_of (some e) = some e.amount

-- The funds that are locked for a transaction are the amount of its prepared event, and none are
-- locked without one.
pub record IsReserved (t : String) (locks : Dict String ℤ) (events : Dict String TransactionEvent)
    : Type 0 where
  pub locked : lookup t locks ≡ amount_of (lookup t events)
  pub prepared : IsPrepared t (lookup t events)

insert-IsReserved :
    (k t : String) (e : TransactionEvent) (locks : Dict String ℤ)
    (events : Dict String TransactionEvent)
    → e.event_type ≡ EventType.withdraw
    → e.transaction_id ≡ k
    → IsReserved t locks events
    → IsReserved t (insert k e.amount locks) (insert k e events)
insert-IsReserved k t e locks events withdraws named r = elim (Bool-cases (k == t)) [
  | inl same ↦ record {
    locked = rw (lookup-insert k t e.amount locks, lookup-insert k t e events, same) refl;
    prepared = rw (lookup-insert k t e events, same) (withdraws, named ∙ beq_eq k t same);
  }
  | inr other ↦ record {
    locked = rw (lookup-insert k t e.amount locks, lookup-insert k t e events, other) r.locked;
    prepared = rw (lookup-insert k t e events, other) r.prepared;
  }
]

erase-IsReserved :
    (k t : String) (locks : Dict String ℤ) (events : Dict String TransactionEvent)
    → IsReserved t locks events
    → IsReserved t (erase k locks) (erase k events)
erase-IsReserved k t locks events r = elim (Bool-cases (k == t)) [
  | inl same ↦ record {
    locked = rw (lookup-erase k t locks, lookup-erase k t events, same) refl;
    prepared = rw (lookup-erase k t events, same) tt;
  }
  | inr other ↦ record {
    locked = rw (lookup-erase k t locks, lookup-erase k t events, other) r.locked;
    prepared = rw (lookup-erase k t events, other) r.prepared;
  }
]

-- `if k in d: del d[k]`
erase_if :
    {V : Type 0} (k : String) (d : Dict String V)
    → (if contains k d then erase k d else d) ≡ erase k d
erase_if k d = elim (Bool-cases (contains k d)) [
  | inl t ↦ rw t refl
  | inr f ↦ rw f (sym (erase_absent k d f))
]

abbrev pub Reserves : Node → Type 0
Reserves n = (t : String) → IsReserved t n.locked_funds n.prepared_transactions

pub prepare-Reserves :
    (now : Now) (transaction_id : String) (amount : ℤ) (request_id : String) (n : Node)
    → Reserves n
    → Reserves (prepare now transaction_id amount request_id n).0
unfolding prepare create_event
prepare-Reserves now transaction_id amount request_id n r t =
    elim (Bool-cases (ltb_ℤ (optimized_balance n -ℤ sum (values n.locked_funds)) amount)) [
      | inl short ↦ rw short (r t)
      | inr enough ↦ rw enough (
          insert-IsReserved transaction_id t
            (record (create_event now EventType.withdraw amount request_id n).1 {
              transaction_id = transaction_id;
            })
            n.locked_funds n.prepared_transactions refl refl (r t))
    ]

pub rollback-Reserves :
    (transaction_id : String) (n : Node)
    → Reserves n
    → Reserves (rollback_coordinated_withdraw transaction_id n).0
unfolding rollback_coordinated_withdraw
rollback-Reserves transaction_id n r t = elim (Bool-cases n.lock_free) [
  | inr busy ↦ rw busy (r t)
  | inl free ↦
      rw
        (
          free,
          erase_if transaction_id n.locked_funds,
          erase_if transaction_id n.prepared_transactions,
        )
        (erase-IsReserved transaction_id t n.locked_funds n.prepared_transactions (r t))
]

module _ (codec : Codec) (print : ℕ → String) where
  pub commit_event-Reserves :
      (transaction_id : String) (event : TransactionEvent) (n : Node)
      → Reserves n
      → Reserves (commit_event codec print transaction_id event n).0
  commit_event-Reserves transaction_id event n r t =
      elim (Bool-cases (is_duplicate event n.event_log)) [
        | inl dup ↦ rw (commit_event_refused codec print transaction_id event n dup) (r t)
        | inr new ↦
            rw
              (
                commit_event_accepted codec print transaction_id event n new,
                erase_if transaction_id n.locked_funds,
              )
              (erase-IsReserved transaction_id t n.locked_funds n.prepared_transactions (r t))
      ]
