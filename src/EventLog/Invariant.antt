-- ===== src/EventLog/Invariant.antt =====
-- The invariant of an `EventLog`.
use mobile_money_simulator.Prelude.{
  ℕ, ◌≤◌, String, ◌≡◌, refl, ◌≢◌, inl, inr, true, false, List, [], ◌∷◌, ◌++◌, arith, elem, All,
  All-snoc, All-imp, Bool-cases, beq_eq, beq_refl, nat_eq, string_eq,
}
use mobile_money_simulator.Dict.{Dict, contains, IsNodup, insert_fresh, insert-IsNodup}
use mobile_money_simulator.EventLog.{
  TransactionEvent, EventLog, empty, nonempty, is_duplicate, store_event, add_event, add_seen,
  validate_loop, validate_consistency,
}

-- An entry is filed under its own id, which is at most `max`, and its request id is known.
pub record IsFiled (max : ℕ) (seen : List String) (entry : ℕ × TransactionEvent) : Type 0 where
  pub keyed : entry.0 ≡ entry.1.event_id
  pub bounded : entry.0 ≤ max
  pub known : nonempty entry.1.request_id ≡ true → elem entry.1.request_id seen ≡ true

-- Two events do not come from one request.
abbrev pub OtherRequest : TransactionEvent → ℕ × TransactionEvent → Type 0
OtherRequest e entry = nonempty e.request_id ≡ true → e.request_id ≢ entry.1.request_id

abbrev pub OneEach : Dict ℕ TransactionEvent → Type 0
OneEach [] = Unit
OneEach ((k, e) ∷ d) = All (OtherRequest e) d × OneEach d

pub record IsWellFormed (log : EventLog) : Type 0 where
  pub filed : All (IsFiled log.max_event_id log.seen_request_ids) log.events
  pub nodup : IsNodup log.events
  pub one_each : OneEach log.events

pub IsWellFormed-empty : IsWellFormed empty
IsWellFormed-empty = record { filed = tt; nodup = tt; one_each = tt }

OneEach-snoc :
    (d : Dict ℕ TransactionEvent) (k : ℕ) (e : TransactionEvent)
    → OneEach d
    → All (λ entry. OtherRequest entry.1 (k, e)) d
    → OneEach (d ++ (k, e) ∷ [])
OneEach-snoc [] k e h new = (tt, tt)
OneEach-snoc ((j, f) ∷ d) k e h new =
    (All-snoc (OtherRequest f) d (k, e) h.0 new.0, OneEach-snoc d k e h.1 new.1)

pub elem-add_seen :
    (r s : String) (seen : List String) → elem s seen ≡ true → elem s (add_seen r seen) ≡ true
elem-add_seen r s seen h = ground arith

pub elem-add_seen_self : (r : String) (seen : List String) → elem r (add_seen r seen) ≡ true
elem-add_seen_self r seen = ground (arith, beq_refl r)

-- A request that is not yet known belongs to no event of the log.
new_request :
    {max : ℕ} {seen : List String} (e : TransactionEvent) (entry : ℕ × TransactionEvent)
    → (nonempty e.request_id ≡ true → elem e.request_id seen ≡ false)
    → IsFiled max seen entry
    → OtherRequest entry.1 (e.event_id, e)
new_request {seen = seen} e entry new f some_request same =
    let is_known : elem e.request_id seen ≡ true = rw (← same) (f.known some_request) in
    let is_new : elem e.request_id seen ≡ false = new (rw (← same) some_request) in cc

store_event-IsFiled :
    (e : TransactionEvent) (log : EventLog)
    → IsWellFormed log
    → (entry : ℕ × TransactionEvent) → IsFiled log.max_event_id log.seen_request_ids entry
    → let log' = store_event e log in IsFiled log'.max_event_id log'.seen_request_ids entry
unfolding store_event
store_event-IsFiled e log wf entry f = record {
  keyed = f.keyed;
  bounded = ground (arith, f.bounded);
  known = λ h.
      ground (arith, f.known h, elem-add_seen e.request_id entry.1.request_id log.seen_request_ids);
}

store_event_new-IsFiled :
    (e : TransactionEvent) (log : EventLog)
    → let log' = store_event e log in
      IsFiled log'.max_event_id log'.seen_request_ids (e.event_id, e)
unfolding store_event
store_event_new-IsFiled e log = record {
  keyed = refl;
  bounded = ground arith;
  known = λ h. ground (arith, elem-add_seen_self e.request_id log.seen_request_ids);
}

pub store_event-IsWellFormed :
    (e : TransactionEvent) (log : EventLog)
    → IsWellFormed log
    → is_duplicate e log ≡ false
    → IsWellFormed (store_event e log)
unfolding is_duplicate store_event
store_event-IsWellFormed e log wf fresh =
    let absent : contains e.event_id log.events ≡ false = ground arith in
    let unseen : nonempty e.request_id ≡ true → elem e.request_id log.seen_request_ids ≡ false =
      λ h. ground arith in
    let log' = store_event e log in
    record {
      filed = rw (insert_fresh e.event_id e log.events absent) (
          All-snoc (IsFiled log'.max_event_id log'.seen_request_ids) log.events (e.event_id, e)
            (All-imp log.events (store_event-IsFiled e log wf) wf.filed)
            (store_event_new-IsFiled e log));
      nodup = insert-IsNodup e.event_id e log.events wf.nodup;
      one_each = rw (insert_fresh e.event_id e log.events absent) (
          OneEach-snoc log.events e.event_id e wf.one_each
            (All-imp log.events (λ entry f. new_request e entry unseen f) wf.filed));
    }

-- Whatever event is offered, the log stays well formed.
pub add_event-IsWellFormed :
    (e : TransactionEvent) (log : EventLog) → IsWellFormed log → IsWellFormed (add_event e log).0
unfolding add_event
add_event-IsWellFormed e log wf = elim (Bool-cases (is_duplicate e log)) [
  | inl dup ↦ rw dup wf
  | inr fresh ↦ rw fresh (store_event-IsWellFormed e log wf fresh)
]

-- No key of the entries is among the ids seen so far.
abbrev NotSeen : List ℕ → Dict ℕ TransactionEvent → Type 0
NotSeen seen_ids = All (λ entry. elem entry.0 seen_ids ≡ false)

NotSeen-cons :
    (k : ℕ) (seen_ids : List ℕ) (d : Dict ℕ TransactionEvent)
    → contains k d ≡ false
    → NotSeen seen_ids d
    → NotSeen (k ∷ seen_ids) d
NotSeen-cons k seen_ids [] new h = tt
NotSeen-cons k seen_ids ((j, e) ∷ d) new h =
    (ground (arith, h.0, beq_eq j k, beq_refl j), NotSeen-cons k seen_ids d (ground arith) h.1)

validate_loop-true :
    (max : ℕ) (seen : List String) (d : Dict ℕ TransactionEvent) (seen_ids : List ℕ)
    → All (IsFiled max seen) d
    → IsNodup d
    → NotSeen seen_ids d
    → validate_loop d seen_ids ≡ true
unfolding validate_loop
validate_loop-true max seen [] seen_ids filed nodup h = refl
validate_loop-true max seen ((k, e) ∷ d) seen_ids filed nodup h =
    rw (h.0, ← filed.0.keyed, beq_refl k)
      (validate_loop-true max seen d (k ∷ seen_ids) filed.1 nodup.1
        (NotSeen-cons k seen_ids d nodup.0 h.1))

NotSeen-nil : (d : Dict ℕ TransactionEvent) → NotSeen [] d
NotSeen-nil [] = tt
NotSeen-nil (entry ∷ d) = (refl, NotSeen-nil d)

-- The log's own check passes on every well-formed log.
pub validate_consistency_passes :
    (log : EventLog) → IsWellFormed log → validate_consistency log ≡ true
unfolding validate_consistency
validate_consistency_passes log wf =
    validate_loop-true log.max_event_id log.seen_request_ids log.events [] wf.filed wf.nodup
      (NotSeen-nil log.events)
