-- ===== src/Events.antt =====
-- src/core/events.py: `Event`, its factories and dicts, and the `EventStore`.
-- An amount is a whole number of the smallest unit and a timestamp a count of microseconds. The
-- uuid that a factory draws and the clock's reading are arguments. `created_at`, which no method
-- reads, `__repr__` and the log lines are left out.
pub mod Codec
pub mod Index
pub mod Tests
use mobile_money_simulator.Prelude.{
  ℕ, String, Bool, true, false, not, List, [], ◌∷◌, ◌++◌, Option, none, some, ◌||◌, if◌then◌else◌,
  length, elem, remove_first, keep_if, nat_eq, string_eq,
}
use mobile_money_simulator.Prelude.Int.{ℤ, pos}
use mobile_money_simulator.Dict.{Dict, lookup, contains, insert, values}
use mobile_money_simulator.VectorClock.{Clock}
use mobile_money_simulator.EventLog.{nonempty}
use mobile_money_simulator.Checkpoint.{or_default}

pub data EventType : Type 0 where
  withdraw deposit transfer_out transfer_in account_created : EventType

-- A value of `replicated_to`: the time of an acknowledgement, or its text after `from_dict`.
pub data AckTime : Type 0 where
  stamped : ℕ → AckTime
  printed : String → AckTime

pub record Event : Type 0 where
  pub event_id : String
  pub event_type : EventType
  pub account_id : ℕ
  pub request_id : String
  pub amount : Option ℤ
  pub balance_before : Option ℤ
  pub balance_after : Option ℤ
  pub phone_number : Option String
  pub account_holder_name : Option String
  pub vector_clock : Clock
  pub server_id : String
  pub timestamp : ℕ
  pub client_reference : Option String
  pub is_applied : Bool
  pub is_replicated : Bool
  pub replicated_to : Dict String AckTime

-- What the factories share: the arguments, and `Event`'s defaults.
unfoldable pub new_event :
    EventType
    → String
    → ℕ
    → ℕ
    → String
    → ℤ
    → ℤ
    → ℤ
    → String
    → Clock
    → Option String
    → Option String
    → Event
new_event event_type uuid now account_id request_id amount balance_before balance_after server_id
      vector_clock phone_number account_holder_name =
    record {
      event_id = uuid;
      event_type = event_type;
      account_id = account_id;
      request_id = request_id;
      amount = some amount;
      balance_before = some balance_before;
      balance_after = some balance_after;
      phone_number = phone_number;
      account_holder_name = account_holder_name;
      vector_clock = vector_clock;
      server_id = server_id;
      timestamp = now;
      client_reference = none;
      is_applied = false;
      is_replicated = false;
      replicated_to = [];
    }

abbrev pub Factory : Type 0
Factory =
    String → ℕ → ℕ → String → ℤ → ℤ → ℤ → String → Clock → Option String → Option String → Event

unfoldable pub create_withdraw_event : Factory
create_withdraw_event = new_event EventType.withdraw

unfoldable pub create_deposit_event : Factory
create_deposit_event = new_event EventType.deposit

unfoldable pub create_transfer_out_event : Factory
create_transfer_out_event = new_event EventType.transfer_out

unfoldable pub create_transfer_in_event : Factory
create_transfer_in_event = new_event EventType.transfer_in

unfoldable pub create_account_created_event :
    String → ℕ → ℕ → String → ℤ → String → Clock → Option String → Option String → Event
create_account_created_event uuid now account_id request_id initial_balance =
    new_event EventType.account_created uuid now account_id request_id initial_balance (pos 0)
      initial_balance

pub record EventStore : Type 0 where
  pub events : Dict String Event
  pub account_events : Dict ℕ (List String)
  pub unapplied_events : List String

abbrev pub empty : EventStore
empty = record { events = []; account_events = []; unapplied_events = [] }

-- self.account_events.get(account_id, [])
abbrev pub ids_of : ℕ → Dict ℕ (List String) → List String
ids_of account_id d = or_default [] (lookup account_id d)

unfoldable pub append : Event → EventStore → EventStore × String
append event s = (
  record {
    events = insert event.event_id event s.events;
    account_events =
        insert event.account_id (ids_of event.account_id s.account_events ++ event.event_id ∷ [])
          s.account_events;
    unapplied_events =
        if not event.is_applied
        then s.unapplied_events ++ event.event_id ∷ []
        else s.unapplied_events;
  },
  event.event_id,
)

unfoldable pub get_event : String → EventStore → Option Event
get_event event_id s = lookup event_id s.events

abbrev pub prepend : Option Event → List Event → List Event
prepend none rest = rest
prepend (some e) rest = e ∷ rest

-- [self.events[eid] for eid in ids if eid in self.events]
abbrev pub events_at : List String → Dict String Event → List Event
events_at [] d = []
events_at (eid ∷ ids) d = prepend (lookup eid d) (events_at ids d)

unfoldable pub get_account_events : ℕ → EventStore → List Event
get_account_events account_id s = events_at (ids_of account_id s.account_events) s.events

abbrev pub applied : Event → Event
applied e = record e { is_applied = true }

unfoldable pub mark_applied : String → EventStore → EventStore × Bool
mark_applied event_id s = elim (lookup event_id s.events) [
  | none ↦ (s, false)
  | some e ↦ (
    record {
      events = insert event_id (applied e) s.events;
      account_events = s.account_events;
      unapplied_events =
          if elem event_id s.unapplied_events
          then remove_first event_id s.unapplied_events
          else s.unapplied_events;
    },
    true,
  )
]

abbrev pub acknowledged : String → ℕ → Event → Event
acknowledged server_id now e = record e {
  replicated_to = insert server_id (AckTime.stamped now) e.replicated_to;
  is_replicated = true;
}

unfoldable pub mark_replicated : ℕ → String → String → EventStore → EventStore × Bool
mark_replicated now event_id server_id s = elim (lookup event_id s.events) [
  | none ↦ (s, false)
  | some e ↦ (record s { events = insert event_id (acknowledged server_id now e) s.events }, true)
]

unfoldable pub get_unapplied_events : EventStore → List Event
get_unapplied_events s = events_at s.unapplied_events s.events

unfoldable pub get_unapplied_event_ids : EventStore → List String
get_unapplied_event_ids s = s.unapplied_events

-- No server id, or an empty one, asks for the events that no peer has acknowledged.
unfoldable pub get_unreplicated_events : String → EventStore → List Event
get_unreplicated_events server_id s =
    if nonempty server_id
    then keep_if (λ e. not e.is_replicated || not (contains server_id e.replicated_to))
        (values s.events)
    else keep_if (λ e. not e.is_replicated) (values s.events)

unfoldable pub all_events : EventStore → List Event
all_events s = values s.events

unfoldable pub event_count : EventStore → ℕ
event_count s = length s.events

unfoldable pub unapplied_count : EventStore → ℕ
unapplied_count s = length s.unapplied_events

pub record Stats : Type 0 where
  pub total_events : ℕ
  pub unapplied_events : ℕ
  pub accounts : ℕ
  pub replicated_events : ℕ

unfoldable pub get_stats : EventStore → Stats
get_stats s = record {
  total_events = length s.events;
  unapplied_events = length s.unapplied_events;
  accounts = length s.account_events;
  replicated_events = length (keep_if (λ e. e.is_replicated) (values s.events));
}
