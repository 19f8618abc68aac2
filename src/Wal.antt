-- ===== src/Wal.antt =====
-- src/core/wal.py: the write-ahead log, `LogEntry` and `WriteAheadLog`. A reading of the clock is
-- an argument, a time is a count of microseconds.
pub mod Recovery
pub mod Index
pub mod Replication
mod Tests
use mobile_money_simulator.Prelude.{
  ℕ, ◌+◌, String, Bool, true, false, List, [], ◌∷◌, ◌++◌, Option, none, some, leb, length, elem,
  remove_first, if◌then◌else◌, nat_eq, string_eq,
}
use mobile_money_simulator.Dict.{Dict, lookup, insert}

pub data WalStatus : Type 0 where
  pending applied replicated : WalStatus

pub record LogEntry : Type 0 where
  pub log_id : ℕ
  pub event_id : String
  pub status : WalStatus
  pub replicated_count : ℕ
  pub required_replicas : ℕ
  pub created_at : ℕ
  pub applied_at : Option ℕ
  pub replicated_at : Option ℕ

pub record WriteAheadLog : Type 0 where
  pub log_entries : Dict String LogEntry
  pub pending_entries : List String
  pub applied_entries : List String
  pub replicated_entries : List String
  pub next_log_id : ℕ

abbrev pub empty : WriteAheadLog
empty = record {
  log_entries = [];
  pending_entries = [];
  applied_entries = [];
  replicated_entries = [];
  next_log_id = 1;
}

-- `LogEntry.mark_applied`, `mark_replicated`, `increment_replica_ack` and `is_quorum_reached`
abbrev pub set_applied : ℕ → LogEntry → LogEntry
set_applied now entry = record entry { status = WalStatus.applied; applied_at = some now }

abbrev pub set_replicated : ℕ → LogEntry → LogEntry
set_replicated now entry = record entry { status = WalStatus.replicated; replicated_at = some now }

abbrev pub increment_replica_ack : LogEntry → LogEntry
increment_replica_ack entry = record entry { replicated_count = entry.replicated_count + 1 }

abbrev pub is_quorum_reached : LogEntry → Bool
is_quorum_reached entry = leb entry.required_replicas entry.replicated_count

-- The entry that `append` makes.
abbrev pub fresh_entry : ℕ → ℕ → String → ℕ → LogEntry
fresh_entry log_id now event_id required_replicas = record {
  log_id = log_id;
  event_id = event_id;
  status = WalStatus.pending;
  replicated_count = 0;
  required_replicas = required_replicas;
  created_at = now;
  applied_at = none;
  replicated_at = none;
}

unfoldable pub append : ℕ → String → ℕ → WriteAheadLog → WriteAheadLog × ℕ
append now event_id required_replicas w = (
  record w {
    log_entries =
        insert event_id (fresh_entry w.next_log_id now event_id required_replicas) w.log_entries;
    pending_entries = w.pending_entries ++ event_id ∷ [];
    next_log_id = w.next_log_id + 1;
  },
  w.next_log_id,
)

unfoldable pub get_entry : String → WriteAheadLog → Option LogEntry
get_entry event_id w = lookup event_id w.log_entries

-- `if x in xs: xs.remove(x)`
abbrev pub drop_id : String → List String → List String
drop_id x xs = if elem x xs then remove_first x xs else xs

unfoldable pub mark_applied : ℕ → String → WriteAheadLog → WriteAheadLog × Bool
mark_applied now event_id w = elim (lookup event_id w.log_entries) [
  | none ↦ (w, false)
  | some entry ↦ (
    record w {
      log_entries = insert event_id (set_applied now entry) w.log_entries;
      pending_entries = drop_id event_id w.pending_entries;
      applied_entries = w.applied_entries ++ event_id ∷ [];
    },
    true,
  )
]

unfoldable pub mark_replicated : ℕ → String → WriteAheadLog → WriteAheadLog × Bool
mark_replicated now event_id w = elim (lookup event_id w.log_entries) [
  | none ↦ (w, false)
  | some entry ↦ (
    record w {
      log_entries = insert event_id (set_replicated now entry) w.log_entries;
      applied_entries = drop_id event_id w.applied_entries;
      replicated_entries = w.replicated_entries ++ event_id ∷ [];
    },
    true,
  )
]

unfoldable pub mark_replica_ack : ℕ → String → WriteAheadLog → WriteAheadLog × Bool
unfolding mark_replicated
mark_replica_ack now event_id w = elim (lookup event_id w.log_entries) [
  | none ↦ (w, false)
  | some entry ↦
      let entry' : LogEntry = increment_replica_ack entry in
      let w' : WriteAheadLog = record w { log_entries = insert event_id entry' w.log_entries } in
      if is_quorum_reached entry' then ((mark_replicated now event_id w').0, true) else (w', false)
]

-- [self.log_entries[eid] for eid in ids if eid in self.log_entries]
abbrev pub entries_of : List String → Dict String LogEntry → List LogEntry
entries_of [] d = []
entries_of (eid ∷ ids) d =
    let rest = entries_of ids d in elim (lookup eid d) [ none ↦ rest | some entry ↦ entry ∷ rest ]

unfoldable pub get_pending_entries : WriteAheadLog → List LogEntry
get_pending_entries w = entries_of w.pending_entries w.log_entries

unfoldable pub get_applied_entries : WriteAheadLog → List LogEntry
get_applied_entries w = entries_of w.applied_entries w.log_entries

unfoldable pub get_replicated_entries : WriteAheadLog → List LogEntry
get_replicated_entries w = entries_of w.replicated_entries w.log_entries

unfoldable pub get_unapplied_events : WriteAheadLog → List String
get_unapplied_events w = w.pending_entries

unfoldable pub get_unreplicated_events : WriteAheadLog → List String
get_unreplicated_events w = w.pending_entries ++ w.applied_entries

-- The five numbers of `get_stats`.
unfoldable pub get_stats : WriteAheadLog → ℕ × ℕ × ℕ × ℕ × ℕ
get_stats w = (
  length w.log_entries,
  length w.pending_entries,
  length w.applied_entries,
  length w.replicated_entries,
  w.next_log_id,
)

-- A call of a method, with its reading of the clock.
pub data Op : Type 0 where
  appends : ℕ → String → ℕ → Op
  applies acks replicates : ℕ → String → Op

abbrev pub perform : Op → WriteAheadLog → WriteAheadLog
perform (Op.appends now e q) w = (append now e q w).0
perform (Op.applies now e) w = (mark_applied now e w).0
perform (Op.acks now e) w = (mark_replica_ack now e w).0
perform (Op.replicates now e) w = (mark_replicated now e w).0

abbrev pub run : List Op → WriteAheadLog → WriteAheadLog
run [] w = w
run (op ∷ ops) w = run ops (perform op w)
