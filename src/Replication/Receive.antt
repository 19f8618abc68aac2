-- ===== src/Replication/Receive.antt =====
-- `ReplicationManager.handle_replicated_event`: an event that another server sent. What the other
-- servers answer to a request for an account is the argument `ask`, and the text of a number the
-- argument `str`. Rows with equal timestamps come in the order of insertion. A commit raises on a
-- column that may not be null, and on a taken event id, request id or phone number.
use mobile_money_simulator.Prelude.{
  ℕ, zero, suc, String, Bool, true, false, not, ◌&&◌, ◌||◌, List, [], ◌∷◌, ◌++◌, Option, none, some,
  ltb, nat_beq, if◌then◌else◌, ◌==◌, keep_if, nat_eq, string_eq,
}
use mobile_money_simulator.Prelude.Int.{ℤ, pos, ltb_ℤ}
use mobile_money_simulator.Dict.{Dict, lookup, insert}
use mobile_money_simulator.EventLog.{nonempty}
use mobile_money_simulator.Checkpoint.{or_default}
use mobile_money_simulator.VectorClock.{detect_concurrent_operations}
use mobile_money_simulator.Events.{Event}
use mobile_money_simulator.Gossip.{
  PeerInfo, GossipNode, get_peer, get_healthy_peers, update_vector_clock,
}
use mobile_money_simulator.Database.{Account, Database, EventRecord, account_by_phone, with_balance}
use mobile_money_simulator.Replication.{Manager}
use Prim.Native.String.{compare, ◌++◌ as ◌++ₛ◌}
use Prim.Native.Nat.{Ordering}

abbrev pub has_event : String → List EventRecord → Bool
has_event event_id [] = false
has_event event_id (r ∷ rs) = r.event_id == event_id || has_event event_id rs

abbrev pub has_event_request : String → List EventRecord → Bool
has_event_request request_id [] = false
has_event_request request_id (r ∷ rs) =
    r.request_id == request_id || has_event_request request_id rs

abbrev pub newer_of : Option EventRecord → EventRecord → EventRecord
newer_of none r = r
newer_of (some x) r = if ltb r.timestamp x.timestamp then x else r

-- The newest event of an account.
abbrev pub last_event : ℕ → List EventRecord → Option EventRecord
last_event account_id [] = none
last_event account_id (r ∷ rs) =
    let rest = last_event account_id rs in
    if nat_beq r.account_id account_id then some (newer_of rest r) else rest

-- order_by(timestamp.desc())
abbrev pub insert_newest : EventRecord → List EventRecord → List EventRecord
insert_newest r [] = r ∷ []
insert_newest r (x ∷ xs) =
    if ltb r.timestamp x.timestamp then x ∷ insert_newest r xs else r ∷ x ∷ xs

abbrev pub newest_first : List EventRecord → List EventRecord
newest_first [] = []
newest_first (r ∷ rs) = insert_newest r (newest_first rs)

-- limit(n)
abbrev pub limit {ℓ} : {A : Type ℓ} → ℕ → List A → List A
limit zero xs = []
limit (suc n) [] = []
limit (suc n) (x ∷ xs) = x ∷ limit n xs

abbrev pub any_concurrent : Event → List EventRecord → Bool
any_concurrent e [] = false
any_concurrent e (r ∷ rs) =
    detect_concurrent_operations r.vector_clock e.vector_clock r.account_id e.account_id
    || any_concurrent e rs

-- `_is_duplicate_event` and `_detect_conflicts`
unfoldable pub is_duplicate_event : String → Database → Bool
is_duplicate_event event_id db = has_event event_id db.events

unfoldable pub detect_conflicts : Event → Database → Bool
detect_conflicts e db = any_concurrent e (
    limit 5 (
      newest_first (
        keep_if (λ r. nat_beq r.account_id e.account_id && not (r.event_id == e.event_id))
          db.events)))

-- What is known about the holder of an account: a phone number and a name.
abbrev pub Holder : Type 0
Holder = Option String × Option String

-- `not phone`: missing or empty
abbrev pub known : Option String → Bool
known none = false
known (some s) = nonempty s

-- The answer of a peer; without one, what was known before.
abbrev pub answered : Option Holder → Holder → Holder
answered none h = h
answered (some answer) h = answer

module _ (ask : PeerInfo → ℕ → Option Holder) where
  abbrev pub ask_peer : Option PeerInfo → ℕ → Holder → Holder
  ask_peer none account_id h = h
  ask_peer (some peer) account_id h = answered (ask peer account_id) h

  -- The first of the healthy peers that answers.
  abbrev pub ask_peers : List PeerInfo → ℕ → Holder → Holder
  ask_peers [] account_id h = h
  ask_peers (peer ∷ peers) account_id h =
      let rest = ask_peers peers account_id h in
      elim (ask peer account_id) as (λ _. Holder) [ none ↦ rest | some answer ↦ answer ]

  abbrev pub ask_origin : Event → GossipNode → Holder → Holder
  ask_origin e n h =
      if known h.0
      then h
      else ask_peer (if nonempty e.server_id then get_peer e.server_id n else none) e.account_id h

  unfoldable pub find_holder : ℕ → Event → GossipNode → Holder
  unfolding get_peer get_healthy_peers
  find_holder now e n =
      let h = ask_origin e n (e.phone_number, e.account_holder_name) in
      if known h.0 then h else ask_peers (get_healthy_peers now n) e.account_id h

-- event_id[:5]
abbrev pub first_chars : ℕ → String → String
first_chars zero s = ""
first_chars (suc n) String.[] = ""
first_chars (suc n) (String.◌∷◌ c s) = String.◌∷◌ c (first_chars n s)

abbrev pub or_text : String → Option String → String
or_text d o = if known o then or_default "" o else d

module _ (str : ℕ → String) where
  -- The account that is made for an event about an unknown one.
  unfoldable pub stub_account : Event → Holder → Account
  stub_account e h = record {
    account_id = e.account_id;
    phone_number =
        or_text ("unknown_" ++ₛ (str e.account_id ++ₛ ("_" ++ₛ first_chars 5 e.event_id))) h.0;
    account_holder_name = or_text "Unknown (Replicated)" h.1;
    balance = or_default (pos 0) e.balance_after;
    currency = "KES";
    account_status = "active";
    created_by_server = e.server_id;
    last_modified_by_server = none;
    version = 1;
  }

abbrev pub is_greater : Ordering → Bool
is_greater Ordering.gt = true
is_greater _ = false

-- Whether the event wins over the last one of its account: by time, then by server id.
abbrev pub is_newer : Option EventRecord → Event → Bool
is_newer none e = true
is_newer (some r) e =
    if ltb e.timestamp r.timestamp
    then false
    else if nat_beq r.timestamp e.timestamp
    then not (is_greater (compare r.server_id e.server_id))
    else true

-- A negative balance is replaced by zero.
abbrev pub clamp : ℤ → ℤ
clamp x = if ltb_ℤ x (pos 0) then pos 0 else x

abbrev pub overwrite : Bool → Option ℤ → Event → Account → Dict ℕ Account → Dict ℕ Account
overwrite true (some x) e a accounts =
    insert e.account_id (with_balance e.server_id (clamp x) a) accounts
overwrite true none e a accounts = accounts
overwrite false x e a accounts = accounts

-- The accounts after an event, or nothing where the flush of a stub raises.
abbrev pub updated_accounts :
    Option Account → Event → Account → List EventRecord → Dict ℕ Account → Option (Dict ℕ Account)
updated_accounts none e stub events accounts =
    elim (account_by_phone stub.phone_number accounts) as (λ _. Option (Dict ℕ Account)) [
      | none ↦ some (insert e.account_id stub accounts)
      | some _ ↦ none
    ]
updated_accounts (some a) e stub events accounts =
    some (overwrite (is_newer (last_event e.account_id events) e) e.balance_after e a accounts)

-- The row of an event, which must have its three amounts.
abbrev pub row_of : Option ℤ → Option ℤ → Option ℤ → Event → Option EventRecord
row_of (some amount) (some before) (some after) e = some (record {
  event_id = e.event_id;
  event_type = e.event_type;
  account_id = e.account_id;
  request_id = e.request_id;
  amount = amount;
  balance_before = before;
  balance_after = after;
  vector_clock = e.vector_clock;
  server_id = e.server_id;
  timestamp = e.timestamp;
  client_reference = e.client_reference;
  is_applied = true;
  is_replicated = false;
})
row_of (some amount) (some before) none e = none
row_of (some amount) none after e = none
row_of none before after e = none

abbrev pub save_row : Option EventRecord → Dict ℕ Account → Database → Option Database
save_row none accounts db = none
save_row (some r) accounts db =
    if has_event r.event_id db.events || has_event_request r.request_id db.events
    then none
    else some (record db { accounts = accounts; events = db.events ++ r ∷ [] })

abbrev pub save : Option (Dict ℕ Account) → Event → Database → Option Database
save none e db = none
save (some accounts) e db =
    save_row (row_of e.amount e.balance_before e.balance_after e) accounts db

unfoldable pub note_conflict : Event → Database → Manager → Manager
unfolding detect_conflicts
note_conflict e db m =
    if detect_conflicts e db
    then record m { conflict_log = insert e.event_id e m.conflict_log }
    else m

abbrev pub applied_or_not :
    Option Database → Event → Database → Manager → (Database × Manager) × Bool
applied_or_not none e db m = ((db, m), false)
applied_or_not (some db') e db m =
    ((db', record m { gossip_node = update_vector_clock e.vector_clock m.gossip_node }), true)

module _ (ask : PeerInfo → ℕ → Option Holder) (str : ℕ → String) where
  -- The tables after the event, or nothing where the database raises. The holder is looked for
  -- only for an unknown account.
  unfoldable pub apply_event : ℕ → Event → GossipNode → Database → Option Database
  unfolding find_holder stub_account
  apply_event now e n db =
      save
        (updated_accounts (lookup e.account_id db.accounts) e
          (stub_account str e (find_holder ask now e n)) db.events db.accounts)
        e db

  unfoldable pub handle_replicated_event :
      ℕ → Event → Database → Manager → (Database × Manager) × Bool
  unfolding is_duplicate_event note_conflict apply_event update_vector_clock
  handle_replicated_event now e db m =
      if is_duplicate_event e.event_id db
      then ((db, m), false)
      else applied_or_not (apply_event now e m.gossip_node db) e db (note_conflict e db m)
