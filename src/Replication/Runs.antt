-- ===== src/Replication/Runs.antt =====
-- The table of replicated events over runs of the server: its rows are never removed, so what has been
-- accepted once is refused from then on.
use mobile_money_simulator.Prelude.{
  ℕ, String, ◌≡◌, ◌⊎◌, refl, sym, ap, ◌∙◌, inl, inr, Bool, true, false, ◌||◌, List, [], ◌∷◌, ◌++◌,
  Option, arith, ◌==◌, Bool-cases, beq_refl, string_eq,
}
use mobile_money_simulator.Dict.{Dict}
use mobile_money_simulator.Events.{Event}
use mobile_money_simulator.Gossip.{PeerInfo}
use mobile_money_simulator.Database.{Database, EventRecord}
use mobile_money_simulator.Replication.{Manager}
use mobile_money_simulator.Replication.Receive.{
  Holder, has_event, has_event_request, handle_replicated_event,
}
use mobile_money_simulator.Replication.Batch.{mark_row, update_status, update_replication_status}
use mobile_money_simulator.Replication.Delivery.{
  row_of-parts, has_event-snoc, handle_replicated_event-cases, refused,
}

-- An event is received, the status of a batch is written, or another call leaves the table of
-- replicated events.
pub data Step (ask : PeerInfo → ℕ → Option Holder) (str : ℕ → String) (db : Database)
    : Database → Type 0 where
  received :
      (now : ℕ) (e : Event) (m : Manager)
      → Step ask str db (handle_replicated_event ask str now e db m).0.0
  reported :
      (now : ℕ) (server_id : String) (ack_counts : Dict String ℕ) (batch : List Event)
      → Step ask str db (update_replication_status now server_id ack_counts batch db)
  elsewhere : {db' : Database} → db'.events ≡ db.events → Step ask str db db'

pub data Run (ask : PeerInfo → ℕ → Option Holder) (str : ℕ → String) (db : Database)
    : Database → Type 0 where
  here : Run ask str db db
  next : {u v : Database} → Run ask str db u → Step ask str u v → Run ask str db v

-- A row has the id of the event, or its request id.
abbrev pub Knows : Event → List EventRecord → Type 0
Knows f rows = (has_event f.event_id rows ≡ true) ⊎ (has_event_request f.request_id rows ≡ true)

mark_row-ids :
    (k j : String) (b : Bool) (rows : List EventRecord)
    → (has_event k (mark_row j b rows) ≡ has_event k rows)
      × (has_event_request k (mark_row j b rows) ≡ has_event_request k rows)
mark_row-ids k j b [] = (refl, refl)
mark_row-ids k j b (r ∷ rows) = elim (Bool-cases (r.event_id == j)) [
  | inl found ↦ rw (found, mark_row) (refl, refl)
  | inr other ↦
      let (ids, requests) = mark_row-ids k j b rows in
      rw (other, mark_row)
        (ap (λ x. r.event_id == k || x) ids, ap (λ x. r.request_id == k || x) requests)
]

Knows-mark_row :
    (f : Event) (j : String) (b : Bool) (rows : List EventRecord)
    → Knows f rows
    → Knows f (mark_row j b rows)
Knows-mark_row f j b rows (inl h) = inl ((mark_row-ids f.event_id j b rows).0 ∙ h)
Knows-mark_row f j b rows (inr h) = inr ((mark_row-ids f.request_id j b rows).1 ∙ h)

Knows-update_status :
    (f : Event) (now : ℕ) (server_id : String) (counts : Dict String ℕ) (e : Event) (db : Database)
    → Knows f db.events
    → Knows f (update_status now server_id counts e db).events
unfolding update_status
Knows-update_status f now server_id counts e db h =
    elim (Bool-cases (has_event e.event_id db.events)) [
      | inl there ↦ rw (there, update_status) (Knows-mark_row f e.event_id _ db.events h)
      | inr gone ↦ rw (gone, update_status) h
    ]

Knows-update_replication_status :
    (f : Event) (now : ℕ) (server_id : String) (counts : Dict String ℕ) (batch : List Event)
    (db : Database)
    → Knows f db.events
    → Knows f (update_replication_status now server_id counts batch db).events
unfolding update_replication_status
Knows-update_replication_status f now server_id counts [] db h = h
Knows-update_replication_status f now server_id counts (e ∷ batch) db h =
    Knows-update_replication_status f now server_id counts batch
      (update_status now server_id counts e db) (Knows-update_status f now server_id counts e db h)

Knows-snoc :
    (f : Event) (r : EventRecord) (rows : List EventRecord)
    → Knows f rows
    → Knows f (rows ++ r ∷ [])
Knows-snoc f r rows (inl h) = inl ((has_event-snoc f.event_id r rows).0 ∙ rw h refl)
Knows-snoc f r rows (inr h) = inr ((has_event-snoc f.request_id r rows).1 ∙ rw h refl)

-- The row of the event itself.
Knows-row :
    (f : Event) (r : EventRecord) (rows : List EventRecord)
    → (f.event_id ≡ r.event_id) ⊎ (f.request_id ≡ r.request_id)
    → Knows f (rows ++ r ∷ [])
Knows-row f r rows (inl same) =
    inl ((has_event-snoc f.event_id r rows).0 ∙ last (has_event f.event_id rows) _ _ same)
  where
    last : (b : Bool) (x y : String) → x ≡ y → (b || y == x) ≡ true
    last b x y e = ground (arith, beq_refl y)
Knows-row f r rows (inr same) =
    inr
      ((has_event-snoc f.request_id r rows).1 ∙ last (has_event_request f.request_id rows) _ _ same)
  where
    last : (b : Bool) (x y : String) → x ≡ y → (b || y == x) ≡ true
    last b x y e = ground (arith, beq_refl y)

module _ (ask : PeerInfo → ℕ → Option Holder) (str : ℕ → String) where
  Step-Knows :
      (f : Event) (db db' : Database) → Step ask str db db' → Knows f db.events → Knows f db'.events
  Step-Knows f db _ (Step.received now e m) h =
      elim (handle_replicated_event-cases ask str now e db m) [
        | inl (_, kept) ↦ rw kept h
        | inr (_, s) ↦ rw s.result (Knows-snoc f s.row db.events h)
      ]
  Step-Knows f db _ (Step.reported now server_id counts batch) h =
      Knows-update_replication_status f now server_id counts batch db h
  Step-Knows f db db' (Step.elsewhere same) h = rw same h

  Run-Knows :
      (f : Event) (db db' : Database) → Run ask str db db' → Knows f db.events → Knows f db'.events
  Run-Knows f db _ Run.here h = h
  Run-Knows f db v (Run.next {u = u} r st) h = Step-Knows f u v st (Run-Knows f db u r h)

  known_refused :
      (now : ℕ) (f : Event) (db : Database) (m : Manager)
      → Knows f db.events
      → let r = handle_replicated_event ask str now f db m in (r.1 ≡ false) × (r.0.0 ≡ db)
  known_refused now f db m h = refused ask str now f db m (λ s.
      let (id, request, _, _, _) =
        row_of-parts f.amount f.balance_before f.balance_after f s.row s.complete in
      elim h [
        | inl seen ↦ clash _ (ap (λ k. has_event k db.events) id ∙ seen) s.fresh
        | inr taken ↦ clash _ (ap (λ k. has_event_request k db.events) request ∙ taken) s.unused
      ])
    where
      clash : (b : Bool) → b ≡ true → b ≡ false → ⊥
      clash b h k = cc

  -- After an event has been accepted, every event with the same event id or the same request id is
  -- refused from then on, and the tables stay: a redelivery, and also the second event of a transfer.
  -- Whatever other events are received in between, whatever batches have their status written, and
  -- whatever other calls leave the table of replicated events.
  pub handle_replicated_event_once :
      (now later : ℕ) (e f : Event) (db v : Database) (m m' : Manager)
      → (f.event_id ≡ e.event_id) ⊎ (f.request_id ≡ e.request_id)
      → (handle_replicated_event ask str now e db m).1 ≡ true
      → Run ask str (handle_replicated_event ask str now e db m).0.0 v
      → ((handle_replicated_event ask str later f v m').1 ≡ false)
        × ((handle_replicated_event ask str later f v m').0.0 ≡ v)
  handle_replicated_event_once now later e f db v m m' same ok run =
      let after = (handle_replicated_event ask str now e db m).0.0 in
      known_refused later f v m' (
        Run-Knows f after v run (elim (handle_replicated_event-cases ask str now e db m) [
          | inl (bad, _) ↦ absurd (clash _ ok bad)
          | inr (_, s) ↦
              let (id, request, _, _, _) =
                row_of-parts e.amount e.balance_before e.balance_after e s.row s.complete in
              rw s.result (
                Knows-row f s.row db.events (elim same [
                  | inl ids ↦ inl (ids ∙ sym id)
                  | inr requests ↦ inr (requests ∙ sym request)
                ]))
        ]))
    where
      clash : (b : Bool) → b ≡ true → b ≡ false → ⊥
      clash b h k = cc
