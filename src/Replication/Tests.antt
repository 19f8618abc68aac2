-- ===== src/Replication/Tests.antt =====
-- Tables with an account, and inputs that meet the hypotheses of the theorems about replication.
use mobile_money_simulator.Prelude.{
  ℕ, String, ◌≡◌, ◌⊎◌, refl, inr, true, false, ◌++◌, List, [], ◌∷◌, Option, none, some, nat_beq,
  arith, length, nat_eq, string_eq,
}
use mobile_money_simulator.Prelude.Int.{ℤ, pos}
use mobile_money_simulator.Dict.{lookup}
use mobile_money_simulator.Checkpoint.Tests.{codec, unary}
use mobile_money_simulator.Events.{Event, EventType}
use mobile_money_simulator.Events.Codec.{from_dict, to_dict}
use mobile_money_simulator.Events.Tests.{event, deposited, emptied}
use mobile_money_simulator.Gossip.{PeerInfo, PeerStatus, update_vector_clock}
use mobile_money_simulator.Database.{Account, Database, EventRecord}
use mobile_money_simulator.Operations.Tests.{account, database, manager, node}
use mobile_money_simulator.Replication.{Manager}
use mobile_money_simulator.Replication.Receive.{Holder, handle_replicated_event, limit}
use mobile_money_simulator.Replication.Delivery.{handle_replicated_event_zero}
use mobile_money_simulator.Replication.Runs.{Run, Step, handle_replicated_event_once}
use mobile_money_simulator.Replication.Convergence.{
  IsNew, AreApart, balance_of, handle_replicated_event_written, handle_replicated_event_converges,
}
use mobile_money_simulator.Replication.Outcome.{Wins, Loses, taken, handle_replicated_event_outcome}
use mobile_money_simulator.Replication.Batch.{
  replication_step, replication_loop, replication_loop_drains,
}
use mobile_money_simulator.Replication.Loss.{IsUnacknowledged, replication_loop_loses}
use mobile_money_simulator.Replication.Status.{ids_of_batch}

abbrev no_answer : PeerInfo → ℕ → Option Holder
no_answer p k = none

abbrev account_1 : Account
account_1 = account 1 "0711" (pos 100)

abbrev row : String → String → EventType → ℕ → ℤ → ℤ → ℤ → EventRecord
row event_id request_id event_type time amount before after = record {
  event_id = event_id;
  event_type = event_type;
  account_id = 1;
  request_id = request_id;
  amount = amount;
  balance_before = before;
  balance_after = after;
  vector_clock = ("s2", 1) ∷ [];
  server_id = "s2";
  timestamp = time;
  client_reference = none;
  is_applied = true;
  is_replicated = false;
}

abbrev row_1 : EventRecord
row_1 = row "e1" "r1" EventType.deposit 3 (pos 30) (pos 70) (pos 100)

abbrev new_1 : IsNew deposited database.events
new_1 = record {
  row = row_1;
  after = pos 100;
  complete = refl;
  says = refl;
  fresh = refl;
  unused = refl;
}

abbrev new_2 : IsNew emptied database.events
new_2 = record {
  row = row "e2" "r2" EventType.withdraw 4 (pos 100) (pos 100) (pos 0);
  after = pos 0;
  complete = refl;
  says = refl;
  fresh = refl;
  unused = refl;
}

apart_example : AreApart deposited emptied
apart_example = record { account = refl; ids = refl; requests = refl }

handle_replicated_event_once_example :
    let db' = (handle_replicated_event no_answer unary 9 deposited database manager).0.0 in
    let v = (handle_replicated_event no_answer unary 10 emptied db' manager).0.0 in
    let twin = event "e9" "r1" EventType.transfer_in 3 (pos 30) (pos 70) (pos 100) in
    ((handle_replicated_event no_answer unary 12 twin v manager).1 ≡ false)
    × ((handle_replicated_event no_answer unary 12 twin v manager).0.0 ≡ v)
handle_replicated_event_once_example =
    let db' = (handle_replicated_event no_answer unary 9 deposited database manager).0.0 in
    handle_replicated_event_once no_answer unary 9 12 deposited
      (event "e9" "r1" EventType.transfer_in 3 (pos 30) (pos 70) (pos 100)) database
      (handle_replicated_event no_answer unary 10 emptied db' manager).0.0 manager manager
      (inr refl)
      (handle_replicated_event_written no_answer unary 9 deposited account_1 database manager refl
        new_1).0
      (Run.next Run.here (Step.received 10 emptied manager))

handle_replicated_event_zero_example :
    (e' : Event) × (from_dict codec (to_dict codec emptied) ≡ some e')
    × (let r = handle_replicated_event no_answer unary 9 e' database manager in
        (r.1 ≡ false) × (r.0.0 ≡ database))
handle_replicated_event_zero_example =
    handle_replicated_event_zero no_answer unary codec 9 emptied database manager (inr (inr refl))

handle_replicated_event_outcome_example :
    let r = handle_replicated_event no_answer unary 9 deposited database manager in
    (r.1 ≡ true)
    × (r.0.0.events ≡ row_1 ∷ [])
    × ((Wins deposited [] × (lookup 1 r.0.0.accounts ≡ some (taken deposited (pos 100) account_1)))
        ⊎ (Loses deposited [] × (lookup 1 r.0.0.accounts ≡ some account_1)))
    × ((k : ℕ) → nat_beq 1 k ≡ false → lookup k r.0.0.accounts ≡ lookup k database.accounts)
    × (r.0.1.gossip_node ≡ update_vector_clock deposited.vector_clock node)
handle_replicated_event_outcome_example =
    handle_replicated_event_outcome no_answer unary 9 deposited account_1 (pos 30) (pos 70)
      (pos 100) database manager refl refl refl refl refl refl

handle_replicated_event_converges_example :
    let first = handle_replicated_event no_answer unary 9 deposited database manager in
    let first' = handle_replicated_event no_answer unary 9 emptied first.0.0 manager in
    let second = handle_replicated_event no_answer unary 9 emptied database manager in
    let second' = handle_replicated_event no_answer unary 9 deposited second.0.0 manager in
    ((first.1 ≡ true) × (first'.1 ≡ true) × (second.1 ≡ true) × (second'.1 ≡ true))
    × (balance_of (lookup 1 first'.0.0.accounts) ≡ some (pos 0))
    × (balance_of (lookup 1 second'.0.0.accounts) ≡ some (pos 0))
handle_replicated_event_converges_example =
    handle_replicated_event_converges no_answer unary 9 9 deposited emptied account_1 database
      manager manager manager refl apart_example new_1 new_2 refl (omega arith)

abbrev waiting : Manager
waiting = record manager { pending_replication = deposited ∷ emptied ∷ deposited ∷ [] }

abbrev all_acked : PeerInfo → List Event → Option (List String)
all_acked p batch = some (ids_of_batch batch)

replication_loop_drains_example :
    (length (replication_loop all_acked (5 ∷ 7 ∷ []) waiting database).0.pending_replication ≡ 0)
    × (limit 2 waiting.pending_replication
          ++ (replication_step all_acked 5 waiting database).0.pending_replication
        ≡ waiting.pending_replication)
replication_loop_drains_example =
    replication_loop_drains all_acked (5 ∷ 7 ∷ []) 5 waiting database (omega arith)

abbrev other_server : PeerInfo
other_server = record {
  server_id = "s2";
  host = "localhost";
  port = 8002;
  status = PeerStatus.online;
  last_contact = some 4;
  vector_clock = [];
}

abbrev connected : Manager
connected = record manager { gossip_node = record node { peers = ("s2", other_server) ∷ [] } }

abbrev saved : Database
saved = record database { events = row_1 ∷ [] }

abbrev unreachable : PeerInfo → List Event → Option (List String)
unreachable p batch = none

replication_loop_loses_example :
    let m : Manager = record connected { pending_replication = waiting.pending_replication } in
    let (m', db') = replication_loop unreachable (5 ∷ 7 ∷ []) m saved in
    (length m'.pending_replication ≡ 0) × IsUnacknowledged saved db'
replication_loop_loses_example =
    replication_loop_loses unreachable (5 ∷ 7 ∷ [])
      (record connected { pending_replication = waiting.pending_replication }) saved
      (λ p batch. refl) (omega arith)
