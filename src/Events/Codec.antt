-- ===== src/Events/Codec.antt =====
-- `Event.to_dict` and `Event.from_dict`: the form in which events travel between servers. The
-- dict is the record `EventData` of the keys that `to_dict` writes; the texts of amounts and
-- dates are a `Codec`.
use mobile_money_simulator.Prelude.{
  ℕ, String, ◌≡◌, refl, ap, zero, suc, Bool, [], ◌∷◌, Option, none, some, if◌then◌else◌, ◌==◌,
  string_eq,
}
use mobile_money_simulator.Prelude.Int.{ℤ, pos, negsuc}
use mobile_money_simulator.Dict.{Dict}
use mobile_money_simulator.VectorClock.{Clock}
use mobile_money_simulator.EventLog.{nonempty}
use mobile_money_simulator.Checkpoint.{Codec}
use mobile_money_simulator.Events.{Event, EventType, AckTime}

pub record EventData : Type 0 where
  pub event_id : String
  pub event_type : String
  pub account_id : ℕ
  pub request_id : String
  pub amount : Option String
  pub balance_before : Option String
  pub balance_after : Option String
  pub vector_clock : Clock
  pub server_id : String
  pub timestamp : String
  pub client_reference : Option String
  pub is_applied : Bool
  pub is_replicated : Bool
  pub replicated_to : Dict String String
  pub phone_number : Option String
  pub account_holder_name : Option String

-- event_type.value
unfoldable pub value : EventType → String
value EventType.withdraw = "withdraw"
value EventType.deposit = "deposit"
value EventType.transfer_out = "transfer_out"
value EventType.transfer_in = "transfer_in"
value EventType.account_created = "account_created"

-- `EventType(s)`, which raises on any other text
unfoldable pub event_type_of : String → Option EventType
event_type_of s =
    if s == "withdraw"
    then some EventType.withdraw
    else if s == "deposit"
    then some EventType.deposit
    else if s == "transfer_out"
    then some EventType.transfer_out
    else if s == "transfer_in"
    then some EventType.transfer_in
    else if s == "account_created"
    then some EventType.account_created
    else none

-- `str(x) if x else None`: zero is false, like a missing amount.
abbrev pub print_amount : (ℤ → String) → Option ℤ → Option String
print_amount str none = none
print_amount str (some (pos zero)) = none
print_amount str (some x) = some (str x)

-- `Decimal(s) if s else None`
abbrev pub read_amount : (String → ℤ) → Option String → Option ℤ
read_amount decimal none = none
read_amount decimal (some s) = if nonempty s then some (decimal s) else none

abbrev pub print_ack : (ℕ → String) → AckTime → String
print_ack isoformat (AckTime.stamped t) = isoformat t
print_ack isoformat (AckTime.printed s) = s

abbrev pub print_acks : (ℕ → String) → Dict String AckTime → Dict String String
print_acks isoformat [] = []
print_acks isoformat ((k, v) ∷ d) = (k, print_ack isoformat v) ∷ print_acks isoformat d

abbrev pub read_acks : Dict String String → Dict String AckTime
read_acks [] = []
read_acks ((k, s) ∷ d) = (k, AckTime.printed s) ∷ read_acks d

module _ (codec : Codec) where
  unfoldable pub to_dict : Event → EventData
  to_dict e = record {
    event_id = e.event_id;
    event_type = value e.event_type;
    account_id = e.account_id;
    request_id = e.request_id;
    amount = print_amount codec.str e.amount;
    balance_before = print_amount codec.str e.balance_before;
    balance_after = print_amount codec.str e.balance_after;
    vector_clock = e.vector_clock;
    server_id = e.server_id;
    timestamp = codec.isoformat e.timestamp;
    client_reference = e.client_reference;
    is_applied = e.is_applied;
    is_replicated = e.is_replicated;
    replicated_to = print_acks codec.isoformat e.replicated_to;
    phone_number = e.phone_number;
    account_holder_name = e.account_holder_name;
  }

  -- The event with a type that has been read.
  unfoldable pub read_event : EventData → EventType → Event
  read_event d event_type = record {
    event_id = d.event_id;
    event_type = event_type;
    account_id = d.account_id;
    request_id = d.request_id;
    amount = read_amount codec.decimal d.amount;
    balance_before = read_amount codec.decimal d.balance_before;
    balance_after = read_amount codec.decimal d.balance_after;
    phone_number = d.phone_number;
    account_holder_name = d.account_holder_name;
    vector_clock = d.vector_clock;
    server_id = d.server_id;
    timestamp = codec.fromisoformat d.timestamp;
    client_reference = d.client_reference;
    is_applied = d.is_applied;
    is_replicated = d.is_replicated;
    replicated_to = read_acks d.replicated_to;
  }

  abbrev pub read_typed : EventData → Option EventType → Option Event
  read_typed d none = none
  read_typed d (some t) = some (read_event d t)

  unfoldable pub from_dict : EventData → Option Event
  from_dict d = read_typed d (event_type_of d.event_type)

-- What becomes of an amount on the way: zero is lost.
abbrev pub received_amount : Option ℤ → Option ℤ
received_amount none = none
received_amount (some (pos zero)) = none
received_amount (some x) = some x

abbrev pub received_acks : (ℕ → String) → Dict String AckTime → Dict String AckTime
received_acks isoformat [] = []
received_acks isoformat ((k, v) ∷ d) =
    (k, AckTime.printed (print_ack isoformat v)) ∷ received_acks isoformat d

-- The event that the other side reads.
abbrev pub received : Codec → Event → Event
received codec e = record e {
  amount = received_amount e.amount;
  balance_before = received_amount e.balance_before;
  balance_after = received_amount e.balance_after;
  replicated_to = received_acks codec.isoformat e.replicated_to;
}

event_type_of-value : (t : EventType) → event_type_of (value t) ≡ some t
unfolding event_type_of value
event_type_of-value EventType.withdraw = refl
event_type_of-value EventType.deposit = refl
event_type_of-value EventType.transfer_out = refl
event_type_of-value EventType.transfer_in = refl
event_type_of-value EventType.account_created = refl

read_amount-print_amount :
    (codec : Codec) (o : Option ℤ)
    → read_amount codec.decimal (print_amount codec.str o) ≡ received_amount o
read_amount-print_amount codec none = refl
read_amount-print_amount codec (some (pos zero)) = refl
read_amount-print_amount codec (some (pos (suc n))) =
    rw (codec.str_nonempty (pos (suc n)), codec.decimal_str (pos (suc n))) refl
read_amount-print_amount codec (some (negsuc n)) =
    rw (codec.str_nonempty (negsuc n), codec.decimal_str (negsuc n)) refl

read_acks-print_acks :
    (isoformat : ℕ → String) (d : Dict String AckTime)
    → read_acks (print_acks isoformat d) ≡ received_acks isoformat d
read_acks-print_acks isoformat [] = refl
read_acks-print_acks isoformat ((k, v) ∷ d) =
    ap (λ l. (k, AckTime.printed (print_ack isoformat v)) ∷ l) (read_acks-print_acks isoformat d)

-- Every event can be read back from its dict, and reading gives the event with all its fields,
-- except that an amount or a balance of zero has become a missing one and that the times of the
-- acknowledgements have become texts.
pub from_dict-to_dict :
    (codec : Codec) (e : Event) → from_dict codec (to_dict codec e) ≡ some (received codec e)
unfolding from_dict to_dict read_event
from_dict-to_dict codec e =
    rw
      (
        from_dict,
        event_type_of-value e.event_type,
        read_amount-print_amount codec e.amount,
        read_amount-print_amount codec e.balance_before,
        read_amount-print_amount codec e.balance_after,
        read_acks-print_acks codec.isoformat e.replicated_to,
        codec.fromisoformat_isoformat e.timestamp,
      )
      refl
