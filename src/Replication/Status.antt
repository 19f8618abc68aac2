-- ===== src/Replication/Status.antt =====
-- The status of the rows after a batch, from the answers of the peers.
use mobile_money_simulator.Prelude.{
  ℕ, suc, ◌+◌, String, ◌≡◌, refl, ap, ◌∙◌, inl, inr, Bool, true, false, ◌||◌, List, [], ◌∷◌, Option,
  none, some, ltb, arith, if◌then◌else◌, ◌==◌, elem, Bool-cases, beq_eq, beq_refl, string_eq,
}
use mobile_money_simulator.Dict.{Dict, lookup}
use mobile_money_simulator.Checkpoint.{or_default}
use mobile_money_simulator.Events.{Event}
use mobile_money_simulator.Database.{Database, EventRecord}
use mobile_money_simulator.Replication.Receive.{has_event}
use mobile_money_simulator.Replication.Batch.{mark_row, update_status, update_replication_status}

-- How often an id stands in a list, and in the answers.
abbrev pub occurrences : String → List String → ℕ
occurrences k [] = 0
occurrences k (j ∷ ids) = if j == k then suc (occurrences k ids) else occurrences k ids

abbrev pub acks_of : String → List (Option (List String)) → ℕ
acks_of k [] = 0
acks_of k (none ∷ results) = acks_of k results
acks_of k (some ids ∷ results) = occurrences k ids + acks_of k results

abbrev pub count_of : String → Dict String ℕ → ℕ
count_of k counts = or_default 0 (lookup k counts)

-- The row of an event, if it has one.
abbrev pub row_at : String → List EventRecord → Option EventRecord
row_at k [] = none
row_at k (r ∷ rs) = let rest = row_at k rs in if r.event_id == k then some r else rest

abbrev pub set_flag : Bool → Option EventRecord → Option EventRecord
set_flag b none = none
set_flag b (some r) = some (record r { is_replicated = b })

clash : (i j k : String) → (i == j) ≡ false → (j == k) ≡ true → (i == k) ≡ true → ⊥
clash i j k f same u = ground (arith, f, beq_eq j k, beq_eq i k, beq_refl k)

row_at-mark_row :
    (k j : String) (b : Bool) (rs : List EventRecord)
    → row_at k (mark_row j b rs) ≡ (if j == k then set_flag b (row_at k rs) else row_at k rs)
row_at-mark_row k j b [] = ground arith
row_at-mark_row k j b (r ∷ rs) = elim (Bool-cases (r.event_id == j)) [
  | inl t ↦ elim (Bool-cases (j == k)) [
    | inl u ↦ rw (t, mark_row) (rw (ap (λ x. x == k) (beq_eq r.event_id j t) ∙ u, u) refl)
    | inr g ↦ rw (t, mark_row) (rw (ap (λ x. x == k) (beq_eq r.event_id j t) ∙ g, g) refl)
  ]
  | inr f ↦
      rw (f, mark_row)
        (elim (Bool-cases (r.event_id == k)) [
          | inl u ↦ rw u (elim (Bool-cases (j == k)) [
            | inl same ↦ absurd (clash r.event_id j k f same u)
            | inr g ↦ rw g refl
          ])
          | inr g ↦ rw g (row_at-mark_row k j b rs)
        ])
]

row_absent : (k : String) (rs : List EventRecord) → has_event k rs ≡ false → row_at k rs ≡ none
row_absent k [] h = refl
row_absent k (r ∷ rs) h = ground (arith, row_absent k rs)

pub set_flag-set_flag :
    (b : Bool) (o : Option EventRecord) → set_flag b (set_flag b o) ≡ set_flag b o
set_flag-set_flag b none = refl
set_flag-set_flag b (some x) = refl

update_status-row :
    (now : ℕ) (server_id k : String) (counts : Dict String ℕ) (e : Event) (db : Database)
    → row_at k (update_status now server_id counts e db).events ≡ (
        if e.event_id == k
        then set_flag (ltb 0 (count_of k counts)) (row_at k db.events)
        else row_at k db.events)
unfolding update_status
update_status-row now server_id k counts e db = elim (Bool-cases (has_event e.event_id db.events)) [
  | inl there ↦
      rw (there, update_status)
        (row_at-mark_row k e.event_id (ltb 0 (count_of e.event_id counts)) db.events
          ∙ counted e.event_id (row_at k db.events))
  | inr gone ↦ rw (gone, update_status) (untouched e.event_id gone)
]
  where
    counted :
        (j : String) (o : Option EventRecord)
        → (if j == k then set_flag (ltb 0 (count_of j counts)) o else o)
          ≡ (if j == k then set_flag (ltb 0 (count_of k counts)) o else o)
    counted j o = elim (Bool-cases (j == k)) [
      | inl same ↦ rw (beq_eq j k same) refl
      | inr other ↦ rw other refl
    ]

    untouched :
        (j : String)
        → has_event j db.events ≡ false
        → row_at k db.events ≡ (
            if j == k
            then set_flag (ltb 0 (count_of k counts)) (row_at k db.events)
            else row_at k db.events)
    untouched j none_there = elim (Bool-cases (j == k)) [
      | inl same ↦ rw (same, row_absent k db.events (rw (← beq_eq j k same) none_there)) refl
      | inr other ↦ rw other refl
    ]

abbrev pub ids_of_batch : List Event → List String
ids_of_batch [] = []
ids_of_batch (e ∷ batch) = e.event_id ∷ ids_of_batch batch

pub update_replication_status-row :
    (now : ℕ) (server_id k : String) (counts : Dict String ℕ) (batch : List Event) (db : Database)
    → row_at k (update_replication_status now server_id counts batch db).events ≡ (
        if elem k (ids_of_batch batch)
        then set_flag (ltb 0 (count_of k counts)) (row_at k db.events)
        else row_at k db.events)
unfolding update_replication_status
update_replication_status-row now server_id k counts [] db = refl
update_replication_status-row now server_id k counts (e ∷ batch) db =
    update_replication_status-row now server_id k counts batch
      (update_status now server_id counts e db)
    ∙ rw (update_status-row now server_id k counts e db) (
        joined (ltb 0 (count_of k counts)) e.event_id (elem k (ids_of_batch batch))
          (row_at k db.events))
  where
    joined :
        (b : Bool) (j : String) (rest : Bool) (o : Option EventRecord)
        → (if rest
            then set_flag b (if j == k then set_flag b o else o)
            else if j == k
            then set_flag b o
            else o)
          ≡ (if k == j || rest then set_flag b o else o)
    joined b j rest o =
        ground (arith, set_flag-set_flag b o, beq_eq j k, beq_eq k j, beq_refl k, beq_refl j)

abbrev pub ids_of_rows : List EventRecord → List String
ids_of_rows [] = []
ids_of_rows (r ∷ rs) = r.event_id ∷ ids_of_rows rs

-- The rows keep their order, and the accounts and transactions stay.
pub record KeepsTables (db db' : Database) : Type 0 where
  pub ids : ids_of_rows db'.events ≡ ids_of_rows db.events
  pub accounts : db'.accounts ≡ db.accounts
  pub transactions : db'.transactions ≡ db.transactions
