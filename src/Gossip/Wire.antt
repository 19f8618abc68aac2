-- ===== src/Gossip/Wire.antt =====
-- `GossipMessage.to_dict` and `from_dict`. The dict is the record `MessageData`, in which a key that
-- is left out is `none`; the texts of dates are a `Codec`.
use mobile_money_simulator.Prelude.{
  ℕ, zero, suc, String, ◌≡◌, refl, ap, List, [], ◌∷◌, Option, none, some, if◌then◌else◌, ◌==◌,
  string_eq,
}
use mobile_money_simulator.VectorClock.{Clock}
use mobile_money_simulator.EventLog.{nonempty}
use mobile_money_simulator.Checkpoint.{Codec}
use mobile_money_simulator.Events.Codec.{EventData}
use mobile_money_simulator.Gossip.{PeerInfo, PeerStatus}
use mobile_money_simulator.Gossip.Messages.{MessageType, FullMessage}

pub record PeerData : Type 0 where
  pub server_id : String
  pub host : String
  pub port : ℕ
  pub status : PeerStatus
  pub last_contact : Option String
  pub vector_clock : Clock

pub record MessageData : Type 0 where
  pub message_type : String
  pub source_server_id : String
  pub timestamp : String
  pub vector_clock : Clock
  pub server_info : Option PeerData
  pub peer_list : Option (List PeerData)
  pub event_id : Option String
  pub event_data : Option EventData
  pub sync_events : Option (List EventData)
  pub sync_position : Option ℕ
  pub acked_event_ids : Option (List String)

-- message_type.value
unfoldable pub message_value : MessageType → String
message_value MessageType.heartbeat = "heartbeat"
message_value MessageType.event_broadcast = "event_broadcast"
message_value MessageType.state_sync = "state_sync"
message_value MessageType.ack = "ack"

-- `GossipMessageType(s)`, which raises on any other text
unfoldable pub message_type_of : String → Option MessageType
message_type_of s =
    if s == "heartbeat"
    then some MessageType.heartbeat
    else if s == "event_broadcast"
    then some MessageType.event_broadcast
    else if s == "state_sync"
    then some MessageType.state_sync
    else if s == "ack"
    then some MessageType.ack
    else none

-- `if self.peer_list:`: an empty list is left out, like a missing one.
abbrev pub filled : {A : Type 0} → Option (List A) → Option (List A)
filled none = none
filled (some []) = none
filled (some (x ∷ xs)) = some (x ∷ xs)

abbrev pub filled_text : Option String → Option String
filled_text none = none
filled_text (some s) = if nonempty s then some s else none

abbrev pub print_position : ℕ → Option ℕ
print_position zero = none
print_position (suc n) = some (suc n)

-- `data['sync_position']` if it is there, else the default of the dataclass.
abbrev pub read_position : Option ℕ → ℕ
read_position none = zero
read_position (some n) = n

abbrev pub print_contact : (ℕ → String) → Option ℕ → Option String
print_contact isoformat none = none
print_contact isoformat (some t) = some (isoformat t)

abbrev pub read_contact : (String → ℕ) → Option String → Option ℕ
read_contact fromisoformat none = none
read_contact fromisoformat (some s) = if nonempty s then some (fromisoformat s) else none

module _ (codec : Codec) where
  -- `PeerInfo.to_dict`
  unfoldable pub print_peer : PeerInfo → PeerData
  print_peer p = record {
    server_id = p.server_id;
    host = p.host;
    port = p.port;
    status = p.status;
    last_contact = print_contact codec.isoformat p.last_contact;
    vector_clock = p.vector_clock;
  }

  unfoldable pub read_peer : PeerData → PeerInfo
  read_peer d = record {
    server_id = d.server_id;
    host = d.host;
    port = d.port;
    status = d.status;
    last_contact = read_contact codec.fromisoformat d.last_contact;
    vector_clock = d.vector_clock;
  }

  abbrev pub print_peers : List PeerInfo → List PeerData
  print_peers [] = []
  print_peers (p ∷ ps) = print_peer p ∷ print_peers ps

  abbrev pub read_peers : List PeerData → List PeerInfo
  read_peers [] = []
  read_peers (d ∷ ds) = read_peer d ∷ read_peers ds

  abbrev pub print_info : Option PeerInfo → Option PeerData
  print_info none = none
  print_info (some p) = some (print_peer p)

  abbrev pub read_info : Option PeerData → Option PeerInfo
  read_info none = none
  read_info (some d) = some (read_peer d)

  abbrev pub print_list : Option (List PeerInfo) → Option (List PeerData)
  print_list none = none
  print_list (some []) = none
  print_list (some (p ∷ ps)) = some (print_peers (p ∷ ps))

  -- `if 'peer_list' in data and data['peer_list']:`
  abbrev pub read_list : Option (List PeerData) → Option (List PeerInfo)
  read_list none = none
  read_list (some []) = none
  read_list (some (d ∷ ds)) = some (read_peers (d ∷ ds))

  -- `GossipMessage.to_dict`
  unfoldable pub print_message : FullMessage → MessageData
  print_message m = record {
    message_type = message_value m.message_type;
    source_server_id = m.source_server_id;
    timestamp = codec.isoformat m.timestamp;
    vector_clock = m.vector_clock;
    server_info = print_info m.server_info;
    peer_list = print_list m.peer_list;
    event_id = filled_text m.event_id;
    event_data = m.event_data;
    sync_events = filled m.sync_events;
    sync_position = print_position m.sync_position;
    acked_event_ids = filled m.acked_event_ids;
  }

  -- The message with a type that has been read.
  abbrev pub read_parts : MessageData → Option MessageType → Option FullMessage
  read_parts d none = none
  read_parts d (some t) = some (record {
    message_type = t;
    source_server_id = d.source_server_id;
    timestamp = codec.fromisoformat d.timestamp;
    vector_clock = d.vector_clock;
    server_info = read_info d.server_info;
    peer_list = read_list d.peer_list;
    event_id = d.event_id;
    event_data = d.event_data;
    sync_events = d.sync_events;
    sync_position = read_position d.sync_position;
    acked_event_ids = d.acked_event_ids;
  })

  -- `GossipMessage.from_dict`
  unfoldable pub read_message : MessageData → Option FullMessage
  read_message d = read_parts d (message_type_of d.message_type)

  -- What becomes of a message on the way: empty lists and texts are missing ones.
  abbrev pub arrived : FullMessage → FullMessage
  arrived m = record m {
    peer_list = filled m.peer_list;
    event_id = filled_text m.event_id;
    sync_events = filled m.sync_events;
    acked_event_ids = filled m.acked_event_ids;
  }

  message_type_of-message_value : (t : MessageType) → message_type_of (message_value t) ≡ some t
  unfolding message_type_of message_value
  message_type_of-message_value MessageType.heartbeat = refl
  message_type_of-message_value MessageType.event_broadcast = refl
  message_type_of-message_value MessageType.state_sync = refl
  message_type_of-message_value MessageType.ack = refl

  read_contact-print_contact :
      (o : Option ℕ) → read_contact codec.fromisoformat (print_contact codec.isoformat o) ≡ o
  read_contact-print_contact none = refl
  read_contact-print_contact (some t) =
      rw (codec.isoformat_nonempty t, codec.fromisoformat_isoformat t) refl

  read_peer-print_peer : (p : PeerInfo) → read_peer (print_peer p) ≡ p
  unfolding read_peer print_peer
  read_peer-print_peer p =
      ap (λ o. record p { last_contact = o }) (read_contact-print_contact p.last_contact)

  read_peers-print_peers : (ps : List PeerInfo) → read_peers (print_peers ps) ≡ ps
  read_peers-print_peers [] = refl
  read_peers-print_peers (p ∷ ps) = rw (read_peer-print_peer p, read_peers-print_peers ps) refl

  read_info-print_info : (o : Option PeerInfo) → read_info (print_info o) ≡ o
  read_info-print_info none = refl
  read_info-print_info (some p) = ap some (read_peer-print_peer p)

  read_list-print_list : (o : Option (List PeerInfo)) → read_list (print_list o) ≡ filled o
  read_list-print_list none = refl
  read_list-print_list (some []) = refl
  read_list-print_list (some (p ∷ ps)) = ap some (read_peers-print_peers (p ∷ ps))

  read_position-print_position : (n : ℕ) → read_position (print_position n) ≡ n
  read_position-print_position zero = refl
  read_position-print_position (suc n) = refl

  -- Every gossip message is read back from its dict with its peers, the times of their last
  -- contacts and its payload, except that an empty list or text has become a missing one.
  pub read_message-print_message :
      (m : FullMessage) → read_message (print_message m) ≡ some (arrived m)
  unfolding read_message print_message
  read_message-print_message m =
      rw
        (
          message_type_of-message_value m.message_type,
          read_info-print_info m.server_info,
          read_list-print_list m.peer_list,
          read_position-print_position m.sync_position,
          codec.fromisoformat_isoformat m.timestamp,
        )
        refl
