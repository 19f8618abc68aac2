-- ===== src/Events/Tests.antt =====
-- A store with events, and inputs that meet the hypotheses of the theorems about events.
use mobile_money_simulator.Prelude.{
  ℕ, String, ◌≡◌, refl, false, [], ◌∷◌, none, some, keep_if, nat_eq, string_eq,
}
use mobile_money_simulator.Prelude.Int.{ℤ, pos}
use mobile_money_simulator.Checkpoint.Tests.{codec}
use mobile_money_simulator.Events.{
  Event, EventType, empty, append, mark_applied, get_unapplied_events, get_account_events,
  all_events,
}
use mobile_money_simulator.Events.Codec.{to_dict, from_dict, from_dict-to_dict}
use mobile_money_simulator.Events.Index.{Run, Step, pending, of_account, get_events-Run}

-- An event of the account 1, at a time and with a balance before and after.
abbrev pub event : String → String → EventType → ℕ → ℤ → ℤ → ℤ → Event
event event_id request_id event_type time amount before after = record {
  event_id = event_id;
  event_type = event_type;
  account_id = 1;
  request_id = request_id;
  amount = some amount;
  balance_before = some before;
  balance_after = some after;
  phone_number = some "0711";
  account_holder_name = some "holder";
  vector_clock = ("s2", 1) ∷ [];
  server_id = "s2";
  timestamp = time;
  client_reference = none;
  is_applied = false;
  is_replicated = false;
  replicated_to = [];
}

abbrev pub deposited : Event
deposited = event "e1" "r1" EventType.deposit 3 (pos 30) (pos 70) (pos 100)

abbrev pub emptied : Event
emptied = event "e2" "r2" EventType.withdraw 4 (pos 100) (pos 100) (pos 0)

stored-Run : Run (mark_applied "e1" (append emptied (append deposited empty).0).0).0
unfolding append
stored-Run =
    Run.later
      (Run.later (Run.later Run.start (Step.appended deposited refl)) (Step.appended emptied refl))
      (Step.marked_applied "e1")

get_events-Run_example :
    let s = (mark_applied "e1" (append emptied (append deposited empty).0).0).0 in
    (get_unapplied_events s ≡ keep_if pending (all_events s))
    × ((a : ℕ) → get_account_events a s ≡ keep_if (of_account a) (all_events s))
get_events-Run_example =
    get_events-Run (mark_applied "e1" (append emptied (append deposited empty).0).0).0 stored-Run

from_dict-to_dict_example :
    from_dict codec (to_dict codec emptied) ≡ some (record emptied { balance_after = none })
from_dict-to_dict_example = from_dict-to_dict codec emptied
