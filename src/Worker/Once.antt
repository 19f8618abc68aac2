-- ===== src/Worker/Once.antt =====
-- A request is queued and booked at most once.
use mobile_money_simulator.Prelude.{
  ℕ, String, ◌≡◌, ◌⊎◌, refl, ap, inl, inr, Bool, true, false, not, ◌||◌, List, [], ◌∷◌, ◌++◌, none,
  some, arith, if◌then◌else◌, ◌==◌, All, All-imp, All-snoc, Bool-cases, Option-cases, beq_eq,
  beq_refl, string_eq,
}
use mobile_money_simulator.Dict.{lookup, contains, insert, contains-insert, lookup-contains}
use mobile_money_simulator.Database.{Transaction, has_request}
use mobile_money_simulator.Idempotency.{
  Request, Requests, NewRequest, Update, entry_of, create_request_entry, update_request_status,
  updated,
}
use mobile_money_simulator.Operations.{Server, Context, Resolution, resolve_account}
use mobile_money_simulator.Operations.Single.{Call}
use mobile_money_simulator.Operations.Ledger.{withdraw-Posts, deposit-Posts}
use mobile_money_simulator.Worker.{
  OperationType, OperationMessage, Service, Submission, Draws, enqueue, call_of, perform,
  processing_update, final_update, process_message, take_turn, worker_step, submit, submit_for,
  after_entry, message_of, request_of, ttl, enqueued, start, stop,
}

abbrev pub is_queued : String → List OperationMessage → Bool
is_queued r [] = false
is_queued r (m ∷ ms) = m.request_id == r || is_queued r ms

-- No two messages of the queue have one request id.
abbrev pub DistinctMessages : List OperationMessage → Type 0
DistinctMessages [] = Unit
DistinctMessages (m ∷ ms) = (is_queued m.request_id ms ≡ false) × DistinctMessages ms

-- What is queued or booked is in the table of requests, nothing is queued twice, and nothing that
-- is queued is booked.
pub record IsOnce (w : Service) : Type 0 where
  pub distinct : DistinctMessages w.queue
  pub known : All (λ m. contains m.request_id w.requests ≡ true) w.queue
  pub unbooked : All (λ m. has_request m.request_id w.server.database.transactions ≡ false) w.queue
  pub booked_known :
      All (λ t. contains t.request_id w.requests ≡ true) w.server.database.transactions

is_queued-snoc :
    (r : String) (m : OperationMessage) (ms : List OperationMessage)
    → is_queued r (ms ++ m ∷ []) ≡ (is_queued r ms || m.request_id == r)
is_queued-snoc r m [] = ground arith
is_queued-snoc r m (x ∷ ms) = ground (arith, is_queued-snoc r m ms)

DistinctMessages-snoc :
    (m : OperationMessage) (ms : List OperationMessage)
    → is_queued m.request_id ms ≡ false
    → DistinctMessages ms
    → DistinctMessages (ms ++ m ∷ [])
DistinctMessages-snoc m [] f h = (refl, tt)
DistinctMessages-snoc m (x ∷ ms) f h = (
  ground (
    arith,
    is_queued-snoc x.request_id m ms,
    h.0,
    beq_eq m.request_id x.request_id,
    beq_refl x.request_id,
  ),
  DistinctMessages-snoc m ms (ground arith) h.1,
)

-- An id that is not in the table is neither queued nor booked.
not_queued :
    (r : String) (requests : Requests) (ms : List OperationMessage)
    → contains r requests ≡ false
    → All (λ m. contains m.request_id requests ≡ true) ms
    → is_queued r ms ≡ false
not_queued r requests [] f h = refl
not_queued r requests (m ∷ ms) f h = elim (Bool-cases (m.request_id == r)) [
  | inl same ↦ absurd (clash m.request_id (beq_eq m.request_id r same) h.0)
  | inr other ↦ rw other (not_queued r requests ms f h.1)
]
  where
    clash : (j : String) → j ≡ r → contains j requests ≡ true → ⊥
    clash j e k = cc

not_booked :
    (r : String) (requests : Requests) (ts : List Transaction)
    → contains r requests ≡ false
    → All (λ t. contains t.request_id requests ≡ true) ts
    → has_request r ts ≡ false
not_booked r requests [] f h = refl
not_booked r requests (t ∷ ts) f h = elim (Bool-cases (t.request_id == r)) [
  | inl same ↦ absurd (clash t.request_id (beq_eq t.request_id r same) h.0)
  | inr other ↦ rw other (not_booked r requests ts f h.1)
]
  where
    clash : (j : String) → j ≡ r → contains j requests ≡ true → ⊥
    clash j e k = cc

-- A table that knows at least as much.
abbrev pub Grows : Requests → Requests → Type 0
Grows d d' = (r : String) → contains r d ≡ true → contains r d' ≡ true

pub Grows-insert : (k : String) (x : Request) (d : Requests) → Grows d (insert k x d)
Grows-insert k x d r h = ground (arith, contains-insert k r x d, h)

pub Grows-update :
    (k : String) (u : Update) (d : Requests) → Grows d (update_request_status k u d).0
unfolding update_request_status
Grows-update k u d r h = elim (Option-cases (lookup k d)) [
  | inl absent ↦ rw absent h
  | inr (x, found) ↦ rw found (Grows-insert k (updated u x) d r h)
]

Grows-message :
    (d d' : Requests) (ms : List OperationMessage)
    → Grows d d'
    → All (λ m. contains m.request_id d ≡ true) ms
    → All (λ m. contains m.request_id d' ≡ true) ms
Grows-message d d' ms g h = All-imp ms (λ m k. g m.request_id k) h

Grows-booking :
    (d d' : Requests) (ts : List Transaction)
    → Grows d d'
    → All (λ t. contains t.request_id d ≡ true) ts
    → All (λ t. contains t.request_id d' ≡ true) ts
Grows-booking d d' ts g h = All-imp ts (λ t k. g t.request_id k) h

-- A new request and its message.
entered-IsOnce :
    (m : OperationMessage) (x : Request) (w : Service)
    → contains m.request_id w.requests ≡ false
    → IsOnce w
    → let requests = insert m.request_id x w.requests in
      IsOnce (record w { requests = requests })
      × IsOnce (record w { requests = requests; queue = w.queue ++ m ∷ [] })
entered-IsOnce m x w fresh h =
    let requests = insert m.request_id x w.requests in
    let grows = Grows-insert m.request_id x w.requests in
    let known = Grows-message w.requests requests w.queue grows h.known in
    let booked =
      Grows-booking w.requests requests w.server.database.transactions grows h.booked_known in
    (
      record { distinct = h.distinct; known = known; unbooked = h.unbooked; booked_known = booked },
      record {
        distinct =
            DistinctMessages-snoc m w.queue
              (not_queued m.request_id w.requests w.queue fresh h.known) h.distinct;
        known =
            All-snoc (λ y. contains y.request_id requests ≡ true) w.queue m known
              (ground (
                arith,
                contains-insert m.request_id m.request_id x w.requests,
                beq_refl m.request_id,
              ));
        unbooked =
            All-snoc (λ y. has_request y.request_id w.server.database.transactions ≡ false) w.queue
              m h.unbooked
              (not_booked m.request_id w.requests w.server.database.transactions fresh
                h.booked_known);
        booked_known = booked;
      },
    )

enqueued-IsOnce :
    (m : OperationMessage) (w : Service)
    → IsOnce w
    → IsOnce (record w { queue = w.queue ++ m ∷ [] })
    → IsOnce (enqueued (enqueue m w) w m.request_id).0
unfolding enqueue
enqueued-IsOnce m w kept queued = either w.started (record w { queue = w.queue ++ m ∷ [] }) queued
  where
    either :
        (b : Bool) (w' : Service)
        → IsOnce w'
        → IsOnce (enqueued (if not b then none else some w') w m.request_id).0
    either true w' h = h
    either false w' h = kept

entered_as :
    (k : String) (m : OperationMessage) (x : Request) (w : Service)
    → m.request_id ≡ k
    → contains k w.requests ≡ false
    → IsOnce w
    → let w' = record w { requests = insert k x w.requests } in
      IsOnce (enqueued (enqueue m w') w' m.request_id).0
entered_as k m x w same fresh h =
    let (kept, queued) = entered-IsOnce m x w (rw same fresh) h in
    rw (← same)
      (enqueued-IsOnce m (record w { requests = insert m.request_id x w.requests }) kept queued)

after_entry-IsOnce :
    (c : Context) (r : NewRequest) (m : OperationMessage) (ttl_seconds : ℕ) (w : Service)
    → m.request_id ≡ r.request_id
    → IsOnce w
    → IsOnce (after_entry (create_request_entry c.server_id c.now ttl_seconds r w.requests) m w).0
unfolding create_request_entry
after_entry-IsOnce c r m ttl_seconds w same h =
    elim (Option-cases (lookup r.request_id w.requests)) [
      | inr (x, found) ↦ rw found h
      | inl absent ↦
          let x = entry_of c.server_id c.now ttl_seconds r in
          rw absent
            (entered_as r.request_id m x w same (lookup-contains r.request_id w.requests absent) h)
    ]

submit-IsOnce :
    (op : OperationType) (c : Context) (d : Draws) (b : Submission) (w : Service)
    → IsOnce w
    → IsOnce (submit op c d b w).0
unfolding submit
submit-IsOnce op c d b w h =
    resolved (resolve_account b.account_id (some b.phone_number) w.server.database)
  where
    resolved : (r : Resolution) → IsOnce (submit_for r c d op b w).0
    resolved (Resolution.found_by_phone a) =
        after_entry-IsOnce c (request_of c d op a.account_id b) (message_of c d op a.account_id b)
          ttl w refl h
    resolved (Resolution.found_by_id a) =
        after_entry-IsOnce c (request_of c d op a.account_id b) (message_of c d op a.account_id b)
          ttl w refl h
    resolved Resolution.no_phone = h
    resolved Resolution.no_account = h
    resolved Resolution.nothing_given = h

-- An operation books nothing, or one transaction under the request id of the call.
abbrev pub Books : String → List Transaction → List Transaction → Type 0
Books r ts ts' = (ts' ≡ ts) ⊎ ((t : Transaction) × (t.request_id ≡ r) × (ts' ≡ ts ++ t ∷ []))

perform-Books :
    (op : OperationType) (c : Context) (call : Call) (s : Server)
    → Books call.request_id s.database.transactions (perform op c call s).0.database.transactions
perform-Books OperationType.withdraw c call s = elim (withdraw-Posts c call s) [
  | inl (_, same) ↦ inl (ap (λ d. d.transactions) same)
  | inr (_, p) ↦ inr (p.entry, p.named, p.entered)
]
perform-Books OperationType.deposit c call s = elim (deposit-Posts c call s) [
  | inl (_, same) ↦ inl (ap (λ d. d.transactions) same)
  | inr (_, p) ↦ inr (p.entry, p.named, p.entered)
]
perform-Books (OperationType.unsupported name) c call s = inl refl

has_request-snoc :
    (r : String) (t : Transaction) (ts : List Transaction)
    → has_request r (ts ++ t ∷ []) ≡ (has_request r ts || t.request_id == r)
has_request-snoc r t [] = ground arith
has_request-snoc r t (u ∷ ts) = ground (arith, has_request-snoc r t ts)

-- The other messages of the queue are still not booked.
still_unbooked :
    (r : String) (t : Transaction) (ts : List Transaction) (ms : List OperationMessage)
    → t.request_id ≡ r
    → is_queued r ms ≡ false
    → All (λ m. has_request m.request_id ts ≡ false) ms
    → All (λ m. has_request m.request_id (ts ++ t ∷ []) ≡ false) ms
still_unbooked r t ts [] e f h = tt
still_unbooked r t ts (m ∷ ms) e f h =
    let (other, rest) = parts (m.request_id == r) (is_queued r ms) f in
    (
      rw (has_request-snoc m.request_id t ts, h.0, e)
          (ground (arith, other, beq_eq r m.request_id, beq_refl r)),
      still_unbooked r t ts ms e rest h.1,
    )
  where
    parts : (a b : Bool) → (a || b) ≡ false → (a ≡ false) × (b ≡ false)
    parts false b h = (refl, h)
    parts true b h = cc

-- After the message at the front has been processed.
processed-IsOnce :
    (m : OperationMessage) (rest : List OperationMessage) (w : Service) (s : Server)
    (requests : Requests)
    → IsOnce (record w { queue = m ∷ rest })
    → Grows w.requests requests
    → Books m.request_id w.server.database.transactions s.database.transactions
    → IsOnce (record w { queue = rest; server = s; requests = requests })
processed-IsOnce m rest w s requests h grows (inl same) = record {
  distinct = h.distinct.1;
  known = Grows-message w.requests requests rest grows h.known.1;
  unbooked = rw same h.unbooked.1;
  booked_known =
      rw same
        (Grows-booking w.requests requests w.server.database.transactions grows h.booked_known);
}
processed-IsOnce m rest w s requests h grows (inr (t, named, entered)) = record {
  distinct = h.distinct.1;
  known = Grows-message w.requests requests rest grows h.known.1;
  unbooked = rw entered (
      still_unbooked m.request_id t w.server.database.transactions rest named h.distinct.0
        h.unbooked.1);
  booked_known = rw entered (
      All-snoc (λ u. contains u.request_id requests ≡ true) w.server.database.transactions t
        (Grows-booking w.requests requests w.server.database.transactions grows h.booked_known)
        (rw named (grows m.request_id h.known.0)));
}

pub process_message-IsOnce :
    (c : Context) (uuid : String) (transaction_id : ℕ) (m : OperationMessage)
    (rest : List OperationMessage) (w : Service)
    → IsOnce (record w { queue = m ∷ rest })
    → IsOnce (process_message c uuid transaction_id m (record w { queue = rest }))
unfolding process_message
process_message-IsOnce c uuid transaction_id m rest w h =
    let call = call_of uuid transaction_id m in
    let (s, (success, reply)) = perform m.operation_type c call w.server in
    let first = (update_request_status m.request_id processing_update w.requests).0 in
    processed-IsOnce m rest w s
      (update_request_status m.request_id (final_update success reply) first).0 h
      (λ r known.
        Grows-update m.request_id (final_update success reply) first r
          (Grows-update m.request_id processing_update w.requests r known))
      (perform-Books m.operation_type c call w.server)

pub worker_step-IsOnce :
    (c : Context) (uuid : String) (transaction_id : ℕ) (w : Service)
    → IsOnce w
    → IsOnce (worker_step c uuid transaction_id w)
unfolding worker_step take_turn
worker_step-IsOnce c uuid transaction_id w h = turn w.queue h
  where
    turn :
        (q : List OperationMessage)
        → IsOnce (record w { queue = q })
        → IsOnce (take_turn q c uuid transaction_id w)
    turn [] k = h
    turn (m ∷ rest) k = process_message-IsOnce c uuid transaction_id m rest w k

-- A request to one of the two routes, or a turn of a worker.
pub data Step (w : Service) : Service → Type 0 where
  submitted :
      (op : OperationType) (c : Context) (d : Draws) (b : Submission) → Step w (submit op c d b w).0
  worked :
      (c : Context) (uuid : String) (transaction_id : ℕ)
      → Step w (worker_step c uuid transaction_id w)
  restarted : Step w (start w)
  stopped : Step w (stop w)

pub data Run (w : Service) : Service → Type 0 where
  here : Run w w
  later : {v u : Service} → Run w v → Step v u → Run w u

Step-IsOnce : (w v : Service) → Step w v → IsOnce w → IsOnce v
unfolding start stop
Step-IsOnce w _ (Step.submitted op c d b) h = submit-IsOnce op c d b w h
Step-IsOnce w _ (Step.worked c uuid transaction_id) h = worker_step-IsOnce c uuid transaction_id w h
Step-IsOnce w _ Step.restarted h = record {
  distinct = h.distinct;
  known = h.known;
  unbooked = h.unbooked;
  booked_known = h.booked_known;
}
Step-IsOnce w _ Step.stopped h = record {
  distinct = h.distinct;
  known = h.known;
  unbooked = h.unbooked;
  booked_known = h.booked_known;
}

-- However requests and turns of the workers interleave, no request id stands in the queue twice, a
-- request that is queued has not been booked, and all that is queued or booked is in the table of
-- requests. The service that the sequence starts with has this property.
pub Run-IsOnce : (w v : Service) → IsOnce w → Run w v → IsOnce v
Run-IsOnce w _ h Run.here = h
Run-IsOnce w u h (Run.later {v = v} r st) = Step-IsOnce v u st (Run-IsOnce w v h r)
