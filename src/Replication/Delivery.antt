-- ===== src/Replication/Delivery.antt =====
-- Which received events are saved, and which are refused.
use mobile_money_simulator.Prelude.{
  ℕ, String, ◌≡◌, ◌⊎◌, refl, sym, ◌∙◌, inl, inr, true, false, ◌||◌, List, [], ◌∷◌, ◌++◌, Option,
  none, some, arith, ◌==◌, Bool-cases, Option-cases, nat_eq, string_eq,
}
use mobile_money_simulator.Prelude.Int.{ℤ, pos}
use mobile_money_simulator.Dict.{Dict, lookup}
use mobile_money_simulator.Checkpoint.{Codec}
use mobile_money_simulator.VectorClock.{Clock}
use mobile_money_simulator.Events.{Event, create_account_created_event, new_event}
use mobile_money_simulator.Events.Codec.{
  received, received_amount, from_dict, to_dict, from_dict-to_dict,
}
use mobile_money_simulator.Gossip.{PeerInfo}
use mobile_money_simulator.Database.{Account, Database, EventRecord}
use mobile_money_simulator.Replication.{Manager}
use mobile_money_simulator.Replication.Receive.{
  Holder, has_event, has_event_request, is_duplicate_event, row_of, save_row, save,
  updated_accounts, apply_event, handle_replicated_event, stub_account, find_holder,
}

-- The event's row is new and is now the last of the table.
pub record IsSaved (e : Event) (db db' : Database) : Type 0 where
  pub accounts : Dict ℕ Account
  pub row : EventRecord
  pub complete : row_of e.amount e.balance_before e.balance_after e ≡ some row
  pub result : db' ≡ record db { accounts = accounts; events = db.events ++ row ∷ [] }
  pub fresh : has_event row.event_id db.events ≡ false
  pub unused : has_event_request row.request_id db.events ≡ false

save-cases :
    (o : Option (Dict ℕ Account)) (e : Event) (db : Database)
    → (save o e db ≡ none)
      ⊎ ((accounts : Dict ℕ Account) × (o ≡ some accounts)
          × (db' : Database) × (save o e db ≡ some db')
          × (s : IsSaved e db db') × (s.accounts ≡ accounts))
save-cases none e db = inl refl
save-cases (some accounts) e db =
    elim (Option-cases (row_of e.amount e.balance_before e.balance_after e)) [
      | inl partial ↦ inl (rw partial refl)
      | inr (r, whole) ↦ elim (Bool-cases (has_event r.event_id db.events)) [
        | inl seen ↦ inl (rw (whole, save_row) (rw seen refl))
        | inr fresh ↦ elim (Bool-cases (has_event_request r.request_id db.events)) [
          | inl taken ↦ inl (rw (whole, save_row) (rw (fresh, taken) refl))
          | inr unused ↦ inr (
            accounts,
            refl,
            record db { accounts = accounts; events = db.events ++ r ∷ [] },
            rw (whole, save_row) (rw (fresh, unused) refl),
            record {
              accounts = accounts;
              row = r;
              complete = whole;
              result = refl;
              fresh = fresh;
              unused = unused;
            },
            refl,
          )
        ]
      ]
    ]

-- What a row takes from its event.
pub row_of-parts :
    (a b c : Option ℤ) (e : Event) (r : EventRecord)
    → row_of a b c e ≡ some r
    → (r.event_id ≡ e.event_id)
      × (r.request_id ≡ e.request_id)
      × (r.account_id ≡ e.account_id)
      × (r.timestamp ≡ e.timestamp)
      × (r.server_id ≡ e.server_id)
row_of-parts (some a) (some b) (some c) e r h = same r _ h
  where
    same :
        (r x : EventRecord)
        → some x ≡ some r
        → (r.event_id ≡ x.event_id)
          × (r.request_id ≡ x.request_id)
          × (r.account_id ≡ x.account_id)
          × (r.timestamp ≡ x.timestamp)
          × (r.server_id ≡ x.server_id)
    same r x h = let e : x ≡ r = cc in rw e (refl, refl, refl, refl, refl)
row_of-parts (some a) (some b) none e r h = cc
row_of-parts (some a) none c e r h = cc
row_of-parts none b c e r h = cc

pub has_event-snoc :
    (k : String) (r : EventRecord) (rs : List EventRecord)
    → (has_event k (rs ++ r ∷ []) ≡ (has_event k rs || r.event_id == k))
      × (has_event_request k (rs ++ r ∷ []) ≡ (has_event_request k rs || r.request_id == k))
has_event-snoc k r [] = (ground arith, ground arith)
has_event-snoc k r (x ∷ rs) =
    let (ids, requests) = has_event-snoc k r rs in (ground (arith, ids), ground (arith, requests))

module _ (ask : PeerInfo → ℕ → Option Holder) (str : ℕ → String) where
  -- A refused event leaves the tables; an accepted one is saved.
  pub handle_replicated_event-cases :
      (now : ℕ) (e : Event) (db : Database) (m : Manager)
      → let r = handle_replicated_event ask str now e db m in
        ((r.1 ≡ false) × (r.0.0 ≡ db)) ⊎ ((r.1 ≡ true) × IsSaved e db r.0.0)
  unfolding handle_replicated_event apply_event
  handle_replicated_event-cases now e db m = elim (Bool-cases (is_duplicate_event e.event_id db)) [
    | inl seen ↦ rw (seen, handle_replicated_event) (inl (refl, refl))
    | inr new ↦
        rw (new, handle_replicated_event)
          (elim (save-cases
            (updated_accounts (lookup e.account_id db.accounts) e
              (stub_account str e (find_holder ask now e m.gossip_node)) db.events db.accounts)
            e db) [
              | inl bad ↦ rw (bad, apply_event) (inl (refl, refl))
              | inr (_, _, db', good, saved, _) ↦ rw (good, apply_event) (inr (refl, saved))
            ])
  ]

  pub refused :
      (now : ℕ) (e : Event) (db : Database) (m : Manager)
      → (IsSaved e db (handle_replicated_event ask str now e db m).0.0 → ⊥)
      → let r = handle_replicated_event ask str now e db m in (r.1 ≡ false) × (r.0.0 ≡ db)
  refused now e db m never = elim (handle_replicated_event-cases now e db m) [
    | inl kept ↦ kept
    | inr (_, saved) ↦ absurd (never saved)
  ]

-- One of the three amounts of an event is zero.
abbrev pub HasZero : Event → Type 0
HasZero e =
    (e.amount ≡ some (pos 0)) ⊎ (e.balance_before ≡ some (pos 0)) ⊎ (e.balance_after ≡ some (pos 0))

row_of-HasZero :
    (codec : Codec) (e : Event)
    → HasZero e
    → row_of
        (received_amount e.amount)
        (received_amount e.balance_before)
        (received_amount e.balance_after)
        (received codec e)
      ≡ none
row_of-HasZero codec e (inl amount) = rw (amount, row_of) refl
row_of-HasZero codec e (inr (inl before)) = rw before (second (received_amount e.amount) _ _)
  where
    second : (a c : Option ℤ) (x : Event) → row_of a none c x ≡ none
    second none c x = refl
    second (some a) c x = refl
row_of-HasZero codec e (inr (inr after)) =
    rw after (third (received_amount e.amount) (received_amount e.balance_before) _)
  where
    third : (a b : Option ℤ) (x : Event) → row_of a b none x ≡ none
    third none b x = refl
    third (some a) none x = refl
    third (some a) (some b) x = refl

-- An event of which the amount, the balance before or the balance after is zero can be read from its
-- dict, and a server that has read it so never accepts it, and its tables stay: a withdrawal of the
-- whole balance, a first deposit, and the creation of any account are not replicated.
pub handle_replicated_event_zero :
    (ask : PeerInfo → ℕ → Option Holder) (str : ℕ → String) (codec : Codec) (now : ℕ) (e : Event)
    (db : Database) (m : Manager)
    → HasZero e
    → (e' : Event) × (from_dict codec (to_dict codec e) ≡ some e')
      × (let r = handle_replicated_event ask str now e' db m in (r.1 ≡ false) × (r.0.0 ≡ db))
handle_replicated_event_zero ask str codec now e db m z = (
  received codec e,
  from_dict-to_dict codec e,
  refused ask str now (received codec e) db m
      (λ s. none_some (sym (row_of-HasZero codec e z) ∙ s.complete)),
)
  where
    none_some : {r : EventRecord} → none ≡ some r → ⊥
    none_some h = cc

-- The creation of an account, whose balance before is zero.
pub create_account_created_event-HasZero :
    (uuid : String) (now account_id : ℕ) (request_id : String) (initial : ℤ) (server_id : String)
    (clock : Clock) (phone name : Option String)
    → HasZero (
        create_account_created_event uuid now account_id request_id initial server_id clock phone
          name)
unfolding create_account_created_event new_event
create_account_created_event-HasZero uuid now k r x s clock phone name = inr (inl refl)
