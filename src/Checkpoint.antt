-- ===== src/Checkpoint.antt =====
-- src/core/checkpoint.py: `Checkpoint` and `CheckpointManager`. The texts of decimals and dates
-- are those of Python's `decimal` and `datetime`: a `Codec`, whose laws are that reading back a
-- printed value gives the value, and that no printed text is empty. A checkpoint's dict is the
-- record `CheckpointData`, with an optional field for each key that `from_dict` reads with a
-- default. The dict of locks, which no method uses, and the log lines are left out.
pub mod Storage
pub mod Tests
use mobile_money_simulator.Prelude.{
  ℕ, String, ◌≡◌, Bool, true, false, List, [], Option, none, some, if◌then◌else◌, ◌==◌, string_eq,
}
use mobile_money_simulator.Prelude.Int.{ℤ, pos, beq_ℤ}
use mobile_money_simulator.Dict.{Dict, lookup, insert}

pub record Codec : Type 0 where
  pub str : ℤ → String
  pub decimal : String → ℤ
  pub isoformat : ℕ → String
  pub fromisoformat : String → ℕ
  pub decimal_str : (x : ℤ) → decimal (str x) ≡ x
  pub fromisoformat_isoformat : (t : ℕ) → fromisoformat (isoformat t) ≡ t
  -- A printed amount or date is not the empty text.
  pub str_nonempty : (x : ℤ) → (str x == "") ≡ false
  pub isoformat_nonempty : (t : ℕ) → (isoformat t == "") ≡ false

pub record Checkpoint : Type 0 where
  pub balance : ℤ
  pub last_event_id : ℕ
  pub timestamp : ℕ
  pub node_id : String
  pub account_id : ℕ
  pub total_deposits : ℤ
  pub total_withdrawals : ℤ
  pub event_count : ℕ
  pub version : String
  pub last_withdraw_amount : ℤ
  pub last_withdraw_event_id : ℕ
  pub last_withdraw_timestamp : ℕ

pub record CheckpointData : Type 0 where
  pub balance : String
  pub last_event_id : ℕ
  pub timestamp : String
  pub node_id : Option String
  pub account_id : Option ℕ
  pub total_deposits : Option String
  pub total_withdrawals : Option String
  pub event_count : Option ℕ
  pub version : Option String
  pub last_withdraw_amount : Option String
  pub last_withdraw_event_id : Option ℕ
  pub last_withdraw_timestamp : Option String

abbrev pub Storage : Type 0
Storage = Dict String CheckpointData

-- data.get(key, default)
abbrev pub or_default {ℓ} : {A : Type ℓ} → A → Option A → A
or_default d none = d
or_default d (some x) = x

abbrev pub read_decimal : (String → ℤ) → Option String → ℤ
read_decimal decimal none = pos 0
read_decimal decimal (some s) = decimal s

-- A missing or empty date reads as the present time.
abbrev pub read_date : (String → ℕ) → ℕ → Option String → ℕ
read_date fromisoformat now none = now
read_date fromisoformat now (some s) = if s == "" then now else fromisoformat s

-- A new checkpoint, with the fields that `Checkpoint` fills with defaults.
unfoldable pub create_checkpoint : ℕ → ℤ → ℕ → String → ℕ → ℤ → ℤ → ℕ → Checkpoint
create_checkpoint now balance last_event_id node_id account_id total_deposits total_withdrawals
      event_count =
    record {
      balance = balance;
      last_event_id = last_event_id;
      timestamp = now;
      node_id = node_id;
      account_id = account_id;
      total_deposits = total_deposits;
      total_withdrawals = total_withdrawals;
      event_count = event_count;
      version = "v1";
      last_withdraw_amount = pos 0;
      last_withdraw_event_id = 0;
      last_withdraw_timestamp = now;
    }

unfoldable pub verify_checkpoint : Checkpoint → ℤ → Bool
verify_checkpoint checkpoint computed_balance =
    if beq_ℤ checkpoint.balance computed_balance then true else false

module _ (codec : Codec) where
  unfoldable pub to_dict : Checkpoint → CheckpointData
  to_dict c = record {
    balance = codec.str c.balance;
    last_event_id = c.last_event_id;
    timestamp = codec.isoformat c.timestamp;
    node_id = some c.node_id;
    account_id = some c.account_id;
    total_deposits = some (codec.str c.total_deposits);
    total_withdrawals = some (codec.str c.total_withdrawals);
    event_count = some c.event_count;
    version = some c.version;
    last_withdraw_amount = some (codec.str c.last_withdraw_amount);
    last_withdraw_event_id = some c.last_withdraw_event_id;
    last_withdraw_timestamp = some (codec.isoformat c.last_withdraw_timestamp);
  }

  unfoldable pub from_dict : ℕ → CheckpointData → Checkpoint
  from_dict now d = record {
    balance = codec.decimal d.balance;
    last_event_id = d.last_event_id;
    timestamp = codec.fromisoformat d.timestamp;
    node_id = or_default "" d.node_id;
    account_id = or_default 0 d.account_id;
    total_deposits = read_decimal codec.decimal d.total_deposits;
    total_withdrawals = read_decimal codec.decimal d.total_withdrawals;
    event_count = or_default 0 d.event_count;
    version = or_default "v1" d.version;
    last_withdraw_amount = read_decimal codec.decimal d.last_withdraw_amount;
    last_withdraw_event_id = or_default 0 d.last_withdraw_event_id;
    last_withdraw_timestamp = read_date codec.fromisoformat now d.last_withdraw_timestamp;
  }

  unfoldable pub save_checkpoint : Checkpoint → String → Storage → Storage
  unfolding to_dict
  save_checkpoint checkpoint storage_key storage = insert storage_key (to_dict checkpoint) storage

  unfoldable pub load_checkpoint : ℕ → String → Storage → Option Checkpoint
  unfolding from_dict
  load_checkpoint now storage_key storage = elim (lookup storage_key storage) [
    | none ↦ none
    | some d ↦ some (from_dict now d)
  ]

  unfoldable pub get_or_create_checkpoint :
      ℕ → String → String → ℕ → ℤ → Storage → Storage × Checkpoint
  unfolding save_checkpoint load_checkpoint create_checkpoint
  get_or_create_checkpoint now storage_key node_id account_id initial_balance storage =
      elim (load_checkpoint now storage_key storage) [
        | some checkpoint ↦ (storage, checkpoint)
        | none ↦
            let checkpoint =
              create_checkpoint now initial_balance 0 node_id account_id (pos 0) (pos 0) 0 in
            (save_checkpoint checkpoint storage_key storage, checkpoint)
      ]
