-- ===== src/Wal/Tests.antt =====
-- Inputs that meet the hypotheses of the theorems about the write-ahead log.
use mobile_money_simulator.Prelude.{
  String, ◌≡◌, refl, true, some, List, [], ◌∷◌, elem, string_eq, ◌≢◌,
}
use mobile_money_simulator.Wal.{
  WalStatus, LogEntry, WriteAheadLog, empty, append, fresh_entry, mark_applied, mark_replica_ack,
  get_unapplied_events, Op, run, get_stats,
}
use mobile_money_simulator.Wal.Recovery.{unapplied_survives}
use mobile_money_simulator.Wal.Index.{IsIndexed, run-empty-IsIndexed}
use text.Mathlib.TextEquality.{eq_iff}

abbrev calls : List Op
calls =
    Op.appends 1 "b" 2 ∷ Op.applies 2 "b" ∷ Op.acks 3 "b" ∷ Op.acks 4 "b" ∷ Op.replicates 5 "b" ∷ []

stats : get_stats (run calls empty) ≡ (1, 0, 0, 2, 2)
unfolding append mark_applied mark_replica_ack get_stats
stats = refl

a_ne_b : ◌≢◌ {A = String} "a" "b"
a_ne_b e = cc ((eq_iff "a" "b").1 e)

unapplied_survives_example :
    elem "a" (get_unapplied_events (run calls (append 0 "a" 2 empty).0)) ≡ true
unapplied_survives_example =
    unapplied_survives 0 2 "a" calls empty (tt, (a_ne_b, (tt, (tt, (tt, tt)))))

run-empty-IsIndexed_example : IsIndexed (run calls empty)
run-empty-IsIndexed_example = run-empty-IsIndexed calls

-- One acknowledgement short of its quorum.
abbrev entry : LogEntry
entry = record (fresh_entry 1 0 "a" 2) {
  status = WalStatus.applied;
  replicated_count = 1;
  applied_at = some 1;
}

abbrev log : WriteAheadLog
log = run (Op.appends 0 "a" 2 ∷ Op.applies 1 "a" ∷ Op.acks 2 "a" ∷ []) empty

-- Replicated, and then marked as applied again.
abbrev replicated_log : WriteAheadLog
replicated_log = (mark_replica_ack 9 "a" log).0
