-- ===== src/Replication/Outcome.antt =====
-- A received event about a known account, by an independent description of which event is newer.
use mobile_money_simulator.Prelude.{
  ℕ, suc, ◌<◌, String, ◌≡◌, ◌≢◌, ◌⊎◌, refl, sym, ap, ◌∙◌, inl, inr, Bool, true, false, not, List,
  [], ◌∷◌, ◌++◌, Option, none, some, ltb, nat_beq, arith, if◌then◌else◌, Bool-cases, Option-cases,
  nat_eq, string_eq,
}
use mobile_money_simulator.Prelude.Int.{ℤ}
use mobile_money_simulator.Dict.{lookup}
use mobile_money_simulator.Events.{Event}
use mobile_money_simulator.Gossip.{PeerInfo, update_vector_clock}
use mobile_money_simulator.Database.{Account, Database, EventRecord}
use mobile_money_simulator.Replication.{Manager}
use mobile_money_simulator.Replication.Receive.{
  Holder, has_event, has_event_request, is_greater, newer_of, last_event, is_newer,
  handle_replicated_event,
}
use mobile_money_simulator.Replication.Convergence.{
  at_least_zero, clamp_exact, balanced, time_of, newer_if, older_if,
  handle_replicated_event_written,
}
use Prim.Native.Nat.{Ordering, max}
use Prim.Native.String.{compare}

-- The latest time of the events of an account.
abbrev pub newest_time : ℕ → List EventRecord → ℕ
newest_time k [] = 0
newest_time k (r ∷ rs) =
    let rest = newest_time k rs in if nat_beq r.account_id k then max r.timestamp rest else rest

-- The account takes the balance of the event.
abbrev pub taken : Event → ℤ → Account → Account
taken e after a = record a {
  balance = at_least_zero after;
  version = suc a.version;
  last_modified_by_server = some e.server_id;
}

-- An event wins that is the first of its account, or later than all the others, or as late as the last
-- one with a server id that is not smaller.
abbrev pub Wins : Event → List EventRecord → Type 0
Wins e rows =
    (last_event e.account_id rows ≡ none)
    ⊎ (newest_time e.account_id rows < e.timestamp)
    ⊎ ((r : EventRecord) × (last_event e.account_id rows ≡ some r)
        × (r.timestamp ≡ e.timestamp)
        × (compare r.server_id e.server_id ≢ Ordering.gt))

-- It loses where it is earlier than one of them, or as late as the last one with a smaller server id.
abbrev pub Loses : Event → List EventRecord → Type 0
Loses e rows =
    (e.timestamp < newest_time e.account_id rows)
    ⊎ ((r : EventRecord) × (last_event e.account_id rows ≡ some r)
        × (r.timestamp ≡ e.timestamp)
        × (compare r.server_id e.server_id ≡ Ordering.gt))

last_event-newest_time :
    (k : ℕ) (rs : List EventRecord) → time_of (last_event k rs) ≡ newest_time k rs
last_event-newest_time k [] = refl
last_event-newest_time k (r ∷ rs) = elim (Bool-cases (nat_beq r.account_id k)) [
  | inr theirs ↦ rw theirs (last_event-newest_time k rs)
  | inl mine ↦ rw mine (joined (last_event k rs) (newest_time k rs) (last_event-newest_time k rs))
]
  where
    joined :
        (o : Option EventRecord) (t : ℕ)
        → time_of o ≡ t
        → (newer_of o r).timestamp ≡ max r.timestamp t
    joined none t h = omega (arith, h)
    joined (some x) t h = elim (Bool-cases (ltb r.timestamp x.timestamp)) [
      | inl after ↦ rw after (ground (arith, h))
      | inr before ↦ rw before (ground (arith, h))
    ]

Ordering-cases :
    (o : Ordering)
    → ((o ≢ Ordering.gt) × (is_greater o ≡ false)) ⊎ ((o ≡ Ordering.gt) × (is_greater o ≡ true))
Ordering-cases Ordering.lt = inl (λ h. cc, refl)
Ordering-cases Ordering.eq = inl (λ h. cc, refl)
Ordering-cases Ordering.gt = inr (refl, refl)

tie_newer :
    (r : EventRecord) (e : Event) (b : Bool)
    → r.timestamp ≡ e.timestamp
    → is_greater (compare r.server_id e.server_id) ≡ b
    → is_newer (some r) e ≡ not b
tie_newer r e b same greater =
    let straight : ltb e.timestamp r.timestamp ≡ false = ground arith in
    let equal : nat_beq r.timestamp e.timestamp ≡ true = ground arith in
    rw (straight, equal, greater) refl

-- The code's choice is this one.
judged :
    (e : Event) (rows : List EventRecord)
    → (Wins e rows × (is_newer (last_event e.account_id rows) e ≡ true))
      ⊎ (Loses e rows × (is_newer (last_event e.account_id rows) e ≡ false))
judged e rows = elim (Option-cases (last_event e.account_id rows)) [
  | inl first ↦ inl (inl first, ap (λ o. is_newer o e) first)
  | inr (r, found) ↦
      let time : newest_time e.account_id rows ≡ r.timestamp =
        sym (last_event-newest_time e.account_id rows) ∙ ap time_of found in
      let by : (b : Bool)
          → is_newer (some r) e ≡ b
          → is_newer (last_event e.account_id rows) e ≡ b =
        λ b h. ap (λ o. is_newer o e) found ∙ h in
      elim (Bool-cases (ltb r.timestamp e.timestamp)) [
        | inl later ↦
            let after : r.timestamp < e.timestamp = ground arith in
            inl (inr (inl (rw time after)), by true (newer_if (some r) e after))
        | inr late ↦ elim (Bool-cases (ltb e.timestamp r.timestamp)) [
          | inl earlier ↦
              let before : e.timestamp < r.timestamp = ground arith in
              inr (inl (rw time before), by false (older_if (some r) e before))
          | inr early ↦
              let same : r.timestamp ≡ e.timestamp = ground arith in
              elim (Ordering-cases (compare r.server_id e.server_id)) [
                | inl (smaller, kept) ↦
                    inl
                      (inr (inr (r, found, same, smaller)), by true (tie_newer r e false same kept))
                | inr (greater, passed) ↦
                    inr (inr (r, found, same, greater), by false (tie_newer r e true same passed))
              ]
        ]
      ]
]

balanced-taken :
    (newer : Bool) (e : Event) (after : ℤ) (a : Account)
    → newer ≡ true
    → some (balanced newer e after a) ≡ some (taken e after a)
balanced-taken newer e after a won =
    rw won (ap (λ x. some (record (taken e after a) { balance = x })) (clamp_exact after))

balanced_kept :
    (newer : Bool) (e : Event) (after : ℤ) (a : Account)
    → newer ≡ false
    → some (balanced newer e after a) ≡ some a
balanced_kept newer e after a lost = rw lost refl

module _ (ask : PeerInfo → ℕ → Option Holder) (str : ℕ → String) where
  -- An event with its three amounts, whose ids are not in the table, about a known account is
  -- accepted: its row is added with all its data, marked as applied, and the local clock moves. The
  -- account takes the event's balance, at least zero, if the event is later than all others of the
  -- account, stays if it is earlier than one of them, and of equal times with the last one the greater
  -- server id decides. The other accounts stay.
  pub handle_replicated_event_outcome :
      (now : ℕ) (e : Event) (a : Account) (amount before after : ℤ) (db : Database) (m : Manager)
      → lookup e.account_id db.accounts ≡ some a
      → e.amount ≡ some amount
      → e.balance_before ≡ some before
      → e.balance_after ≡ some after
      → has_event e.event_id db.events ≡ false
      → has_event_request e.request_id db.events ≡ false
      → let r = handle_replicated_event ask str now e db m in
        let row : EventRecord = record {
          event_id = e.event_id;
          event_type = e.event_type;
          account_id = e.account_id;
          request_id = e.request_id;
          amount = amount;
          balance_before = before;
          balance_after = after;
          vector_clock = e.vector_clock;
          server_id = e.server_id;
          timestamp = e.timestamp;
          client_reference = e.client_reference;
          is_applied = true;
          is_replicated = false;
        } in
        (r.1 ≡ true)
        × (r.0.0.events ≡ db.events ++ row ∷ [])
        × ((Wins e db.events × (lookup e.account_id r.0.0.accounts ≡ some (taken e after a)))
            ⊎ (Loses e db.events × (lookup e.account_id r.0.0.accounts ≡ some a)))
        × ((k : ℕ)
            → nat_beq e.account_id k ≡ false
            → lookup k r.0.0.accounts ≡ lookup k db.accounts)
        × (r.0.1.gossip_node ≡ update_vector_clock e.vector_clock m.gossip_node)
  handle_replicated_event_outcome now e a amount before after db m held x y z fresh unused =
      let (ok, events, written, others, clock) =
        handle_replicated_event_written ask str now e a db m held (record {
          row = _;
          after = after;
          complete = rw (x, y, z) refl;
          says = z;
          fresh = fresh;
          unused = unused;
        }) in
      (
        ok,
        events,
        elim (judged e db.events) [
          | inl (wins, won) ↦ inl (wins, written ∙ balanced-taken _ e after a won)
          | inr (loses, lost) ↦ inr (loses, written ∙ balanced_kept _ e after a lost)
        ],
        others,
        clock,
      )
