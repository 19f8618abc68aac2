-- ===== src/Replication/Loss.antt =====
-- What becomes of queued events while no other server can be reached.
use mobile_money_simulator.Prelude.{
  ℕ, ◌*◌, ◌≤◌, String, ◌≡◌, ◌⊎◌, refl, ap, ◌∙◌, inl, inr, Bool, true, false, List, [], ◌∷◌, Option,
  none, map, if◌then◌else◌, elem, length, Bool-cases, string_eq,
}
use mobile_money_simulator.Dict.{Dict}
use mobile_money_simulator.Events.{Event}
use mobile_money_simulator.Gossip.{PeerInfo, get_healthy_peers}
use mobile_money_simulator.Database.{Database, EventRecord}
use mobile_money_simulator.Replication.{Manager}
use mobile_money_simulator.Replication.Receive.{limit, has_event}
use mobile_money_simulator.Replication.Batch.{
  skip, has_state, count_results, update_status, update_replication_status, replicate_batch,
  replication_loop, replication_step, replication_loop_drains, send_to,
}
use mobile_money_simulator.Replication.Status.{
  row_at, set_flag, set_flag-set_flag, ids_of_batch, update_replication_status-row,
}

-- No row is marked as replicated that was not, and no acknowledgement is noted.
pub record IsUnacknowledged (db db' : Database) : Type 0 where
  pub states : db'.replication_states ≡ db.replication_states
  pub rows :
      (k : String)
      → (row_at k db'.events ≡ row_at k db.events)
        ⊎ (row_at k db'.events ≡ set_flag false (row_at k db.events))

IsUnacknowledged-refl : (db : Database) → IsUnacknowledged db db
IsUnacknowledged-refl db = record { states = refl; rows = λ k. inl refl }

IsUnacknowledged-trans :
    (a b c : Database) → IsUnacknowledged a b → IsUnacknowledged b c → IsUnacknowledged a c
IsUnacknowledged-trans a b c h k = record {
  states = k.states ∙ h.states;
  rows = λ j. joined _ _ _ (h.rows j) (k.rows j);
}
  where
    joined :
        (x y z : Option EventRecord)
        → (y ≡ x) ⊎ (y ≡ set_flag false x)
        → (z ≡ y) ⊎ (z ≡ set_flag false y)
        → (z ≡ x) ⊎ (z ≡ set_flag false x)
    joined x y z (inl e) (inl f) = inl (f ∙ e)
    joined x y z (inl e) (inr f) = inr (f ∙ ap (set_flag false) e)
    joined x y z (inr e) (inl f) = inr (f ∙ e)
    joined x y z (inr e) (inr f) = inr (f ∙ ap (set_flag false) e ∙ set_flag-set_flag false x)

update_status-states :
    (now : ℕ) (server_id : String) (e : Event) (db : Database)
    → (update_status now server_id [] e db).replication_states ≡ db.replication_states
unfolding update_status
update_status-states now server_id e db = elim (Bool-cases (has_event e.event_id db.events)) [
  | inr gone ↦ rw (gone, update_status) refl
  | inl there ↦
      rw (there, update_status)
        (elim (Bool-cases (has_state e.event_id db.replication_states)) [
          | inl known ↦ rw known refl
          | inr new ↦ rw new refl
        ])
]

update_replication_status-states :
    (now : ℕ) (server_id : String) (batch : List Event) (db : Database)
    → (update_replication_status now server_id [] batch db).replication_states
      ≡ db.replication_states
unfolding update_replication_status
update_replication_status-states now server_id [] db = refl
update_replication_status-states now server_id (e ∷ batch) db =
    update_replication_status-states now server_id batch (update_status now server_id [] e db)
    ∙ update_status-states now server_id e db

update_replication_status-IsUnacknowledged :
    (now : ℕ) (server_id : String) (batch : List Event) (db : Database)
    → IsUnacknowledged db (update_replication_status now server_id [] batch db)
update_replication_status-IsUnacknowledged now server_id batch db = record {
  states = update_replication_status-states now server_id batch db;
  rows = λ k.
      either k (elem k (ids_of_batch batch)) _
        (update_replication_status-row now server_id k [] batch db);
}
  where
    either :
        (k : String) (b : Bool) (o : Option EventRecord)
        → o ≡ (if b then set_flag false (row_at k db.events) else row_at k db.events)
        → (o ≡ row_at k db.events) ⊎ (o ≡ set_flag false (row_at k db.events))
    either k true o h = inr h
    either k false o h = inl h

module _ (send : PeerInfo → List Event → Option (List String)) where
  -- Every request fails.
  abbrev pub IsSilent : Type 0
  IsSilent = (p : PeerInfo) (batch : List Event) → send p batch ≡ none

  no_results :
      (batch : List Event) (peers : List PeerInfo)
      → IsSilent
      → count_results (map (λ q. send q batch) peers) [] ≡ []
  unfolding count_results
  no_results batch [] silent = refl
  no_results batch (p ∷ peers) silent =
      rw (silent p batch, count_results) (no_results batch peers silent)

  replicate_batch-IsUnacknowledged :
      (now : ℕ) (m : Manager) (batch : List Event) (db : Database)
      → IsSilent
      → IsUnacknowledged db (replicate_batch send now m batch db)
  unfolding replicate_batch
  replicate_batch-IsUnacknowledged now m [] db silent = IsUnacknowledged-refl db
  replicate_batch-IsUnacknowledged now m (e ∷ batch) db silent =
      to (get_healthy_peers now m.gossip_node)
    where
      by_counts :
          (events : List Event) (counts : Dict String ℕ)
          → counts ≡ []
          → IsUnacknowledged db (update_replication_status now m.server_id counts events db)
      by_counts events counts same =
          rw same (update_replication_status-IsUnacknowledged now m.server_id events db)

      to :
          (peers : List PeerInfo)
          → IsUnacknowledged db (send_to send peers (e ∷ batch) now m.server_id db)
      to [] = IsUnacknowledged-refl db
      to (p ∷ peers) =
          by_counts (e ∷ batch) (count_results (map (λ q. send q (e ∷ batch)) (p ∷ peers)) [])
            (no_results (e ∷ batch) (p ∷ peers) silent)

  loop-IsUnacknowledged :
      (times : List ℕ) (m : Manager) (db : Database)
      → IsSilent
      → IsUnacknowledged db (replication_loop send times m db).1
  unfolding replication_loop replication_step
  loop-IsUnacknowledged [] m db silent = IsUnacknowledged-refl db
  loop-IsUnacknowledged (now ∷ times) m db silent =
      let batch = limit m.batch_size m.pending_replication in
      let db1 = replicate_batch send now m batch db in
      let m1 : Manager = record m {
        pending_replication = skip m.batch_size m.pending_replication;
      } in
      IsUnacknowledged-trans db db1 (replication_loop send times m1 db1).1
        (replicate_batch-IsUnacknowledged now m batch db silent)
        (loop-IsUnacknowledged times m1 db1 silent)

  -- While every request to another server fails, whichever peers count as healthy, enough turns to
  -- make up the queue's length in batches empty it all the same, although no acknowledgement is
  -- noted and no row becomes replicated: the queued events are lost to the other servers.
  pub replication_loop_loses :
      (times : List ℕ) (m : Manager) (db : Database)
      → IsSilent
      → length m.pending_replication ≤ length times * m.batch_size
      → let (m', db') = replication_loop send times m db in
        (length m'.pending_replication ≡ 0) × IsUnacknowledged db db'
  replication_loop_loses times m db silent enough = (
    (replication_loop_drains send times 0 m db enough).0,
    loop-IsUnacknowledged times m db silent,
  )
