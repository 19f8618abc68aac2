-- ===== src/Replication/Batch.antt =====
-- The replication loop: batches of queued events are sent to the healthy peers, and their answers
-- counted. What a peer answers to a batch is the argument `send`: the event ids that it
-- acknowledges, or nothing where the request fails.
use mobile_money_simulator.Prelude.{
  ℕ, zero, suc, ◌+◌, ◌-◌, ◌*◌, ◌≤◌, String, ◌≡◌, refl, ap, ◌∙◌, Bool, true, false, ◌||◌, List, [],
  ◌∷◌, ◌++◌, Option, none, some, map, ltb, arith, if◌then◌else◌, ◌==◌, length, string_eq, nat_eq,
}
use mobile_money_simulator.Dict.{Dict, lookup, insert}
use mobile_money_simulator.Checkpoint.{or_default}
use mobile_money_simulator.Events.{Event}
use mobile_money_simulator.Gossip.{PeerInfo, get_healthy_peers}
use mobile_money_simulator.Database.{Database, EventRecord, ReplicationState}
use mobile_money_simulator.Replication.{Manager}
use mobile_money_simulator.Replication.Receive.{limit, has_event}

-- xs[n:]
abbrev pub skip {ℓ} : {A : Type ℓ} → ℕ → List A → List A
skip zero xs = xs
skip (suc n) [] = []
skip (suc n) (x ∷ xs) = skip n xs

-- One acknowledgement more for each id.
unfoldable pub count_acks : List String → Dict String ℕ → Dict String ℕ
count_acks [] counts = counts
count_acks (k ∷ ids) counts = count_acks ids (insert k (or_default 0 (lookup k counts) + 1) counts)

-- Over the answers; a failed request counts for nothing.
unfoldable pub count_results : List (Option (List String)) → Dict String ℕ → Dict String ℕ
unfolding count_acks
count_results [] counts = counts
count_results (none ∷ results) counts = count_results results counts
count_results (some ids ∷ results) counts = count_results results (count_acks ids counts)

abbrev pub mark_row : String → Bool → List EventRecord → List EventRecord
mark_row k replicated [] = []
mark_row k replicated (r ∷ rs) =
    if r.event_id == k
    then record r { is_replicated = replicated } ∷ rs
    else r ∷ mark_row k replicated rs

abbrev pub has_state : String → List ReplicationState → Bool
has_state k [] = false
has_state k (s ∷ ss) = s.event_id == k || has_state k ss

abbrev pub new_state : ℕ → String → String → ReplicationState
new_state now server_id k = record {
  event_id = k;
  server_id = server_id;
  acked = true;
  acked_at = now;
}

-- One event of the batch: its row is marked, and a state is added if it has none.
unfoldable pub update_status : ℕ → String → Dict String ℕ → Event → Database → Database
update_status now server_id ack_counts e db =
    let acked = ltb 0 (or_default 0 (lookup e.event_id ack_counts)) in
    if has_event e.event_id db.events
    then record db {
      events = mark_row e.event_id acked db.events;
      replication_states =
          if has_state e.event_id db.replication_states
          then db.replication_states
          else if acked
          then db.replication_states ++ new_state now server_id e.event_id ∷ []
          else db.replication_states;
    }
    else db

unfoldable pub update_replication_status :
    ℕ → String → Dict String ℕ → List Event → Database → Database
unfolding update_status
update_replication_status now server_id ack_counts [] db = db
update_replication_status now server_id ack_counts (e ∷ batch) db =
    update_replication_status now server_id ack_counts batch
      (update_status now server_id ack_counts e db)

module _ (send : PeerInfo → List Event → Option (List String)) where
  abbrev pub send_to : List PeerInfo → List Event → ℕ → String → Database → Database
  send_to [] batch now server_id db = db
  send_to (p ∷ peers) batch now server_id db =
      update_replication_status now server_id
        (count_results (map (λ q. send q batch) (p ∷ peers)) []) batch db

  unfoldable pub replicate_batch : ℕ → Manager → List Event → Database → Database
  unfolding update_replication_status count_results get_healthy_peers
  replicate_batch now m [] db = db
  replicate_batch now m (e ∷ batch) db =
      send_to (get_healthy_peers now m.gossip_node) (e ∷ batch) now m.server_id db

  -- One turn of the loop.
  unfoldable pub replication_step : ℕ → Manager → Database → Manager × Database
  unfolding replicate_batch
  replication_step now m db = (
    record m { pending_replication = skip m.batch_size m.pending_replication },
    replicate_batch now m (limit m.batch_size m.pending_replication) db,
  )

  -- The flush at the end.
  unfoldable pub stop : ℕ → Manager → Database → Database
  unfolding replicate_batch
  stop now m db = replicate_batch now m m.pending_replication db

  -- Several turns, with the readings of the clock.
  unfoldable pub replication_loop : List ℕ → Manager → Database → Manager × Database
  unfolding replication_step
  replication_loop [] m db = (m, db)
  replication_loop (now ∷ times) m db =
      let (m', db') = replication_step now m db in replication_loop times m' db'

limit-skip {ℓ} : {A : Type ℓ} (n : ℕ) (xs : List A) → limit n xs ++ skip n xs ≡ xs
limit-skip zero xs = refl
limit-skip (suc n) [] = refl
limit-skip (suc n) (x ∷ xs) = ap (λ l. x ∷ l) (limit-skip n xs)

length-skip {ℓ} : {A : Type ℓ} (n : ℕ) (xs : List A) → length (skip n xs) ≡ length xs - n
length-skip zero xs = omega arith
length-skip (suc n) [] = omega arith
length-skip (suc n) (x ∷ xs) = omega (arith, length-skip n xs)

module _ (send : PeerInfo → List Event → Option (List String)) where
  loop_length :
      (times : List ℕ) (m : Manager) (db : Database)
      → length (replication_loop send times m db).0.pending_replication
        ≡ length m.pending_replication - length times * m.batch_size
  unfolding replication_loop replication_step
  loop_length [] m db = omega arith
  loop_length (now ∷ times) m db =
      loop_length times (record m { pending_replication = skip m.batch_size m.pending_replication })
        _
      ∙ step m.batch_size (length times) (length m.pending_replication) _
          (length-skip m.batch_size m.pending_replication)
    where
      times_suc : (t b : ℕ) → suc t * b ≡ b + t * b
      times_suc t b = omega arith

      step : (b t l s : ℕ) → s ≡ l - b → s - t * b ≡ l - suc t * b
      step b t l s e = omega (arith, e, times_suc t b)

  -- The queue drains: after as many turns as make up the queue's length in batches, nothing waits.
  -- Each turn takes the batch from the front of the queue, in its order.
  pub replication_loop_drains :
      (times : List ℕ) (now : ℕ) (m : Manager) (db : Database)
      → length m.pending_replication ≤ length times * m.batch_size
      → (length (replication_loop send times m db).0.pending_replication ≡ 0)
        × (limit m.batch_size m.pending_replication
              ++ (replication_step send now m db).0.pending_replication
            ≡ m.pending_replication)
  unfolding replication_step
  replication_loop_drains times now m db h = (
    loop_length times m db ∙ zero_of (length m.pending_replication) (length times * m.batch_size) h,
    limit-skip m.batch_size m.pending_replication,
  )
    where
      zero_of : (a b : ℕ) → a ≤ b → a - b ≡ 0
      zero_of a b h = omega arith
