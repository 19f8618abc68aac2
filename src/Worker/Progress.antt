-- ===== src/Worker/Progress.antt =====
-- Every queued request is settled.
use mobile_money_simulator.Prelude.{
  ℕ, ◌≤◌, String, ◌≡◌, ◌⊎◌, refl, ap, ◌∙◌, inl, inr, Bool, true, false, ◌||◌, List, [], ◌∷◌, Option,
  some, arith, length, ◌==◌, All, All-imp, Option-cases, beq_refl, string_eq,
}
use mobile_money_simulator.Dict.{lookup, contains, lookup-contains, lookup-insert}
use mobile_money_simulator.Database.{RequestStatus}
use mobile_money_simulator.Idempotency.{Request, Requests, Update, update_request_status, updated}
use mobile_money_simulator.Operations.{Context, Reply}
use mobile_money_simulator.Worker.{
  OperationMessage, Service, call_of, perform, processing_update, final_update, process_message,
  take_turn, worker_step,
}
use mobile_money_simulator.Worker.Once.{is_queued, IsOnce, process_message-IsOnce}

-- The request has its final status.
pub record IsSettled (r : String) (requests : Requests) : Type 0 where
  pub request : Request
  pub found : lookup r requests ≡ some request
  pub final : (request.status ≡ RequestStatus.completed) ⊎ (request.status ≡ RequestStatus.failed)

updated_found :
    (k : String) (u : Update) (d : Requests) (x : Request)
    → lookup k d ≡ some x
    → lookup k (update_request_status k u d).0 ≡ some (updated u x)
unfolding update_request_status
updated_found k u d x h = rw h (lookup-insert k k (updated u x) d ∙ rw (beq_refl k) refl)

updated_other :
    (k j : String) (u : Update) (d : Requests)
    → (k == j) ≡ false
    → lookup j (update_request_status k u d).0 ≡ lookup j d
unfolding update_request_status
updated_other k j u d other = elim (Option-cases (lookup k d)) [
  | inl absent ↦ rw absent refl
  | inr (x, found) ↦ rw found (lookup-insert k j (updated u x) d ∙ rw other refl)
]

final_status :
    (success : Bool) (reply : Option Reply)
    → ((final_update success reply).status ≡ RequestStatus.completed)
      ⊎ ((final_update success reply).status ≡ RequestStatus.failed)
final_status true reply = inl refl
final_status false reply = inr refl

-- A message about a known request: it leaves the queue, and its request gets a final status, which
-- is `completed` exactly with a success, and the operation's reply; the other requests stay.
process_message_settles :
    (c : Context) (uuid : String) (transaction_id : ℕ) (m : OperationMessage) (x : Request)
    (w : Service)
    → lookup m.request_id w.requests ≡ some x
    → let w' = process_message c uuid transaction_id m w in
      let (s, (success, reply)) =
        perform m.operation_type c (call_of uuid transaction_id m) w.server in
      (w'.queue ≡ w.queue)
      × (w'.server ≡ s)
      × (lookup m.request_id w'.requests
          ≡ some (updated (final_update success reply) (updated processing_update x)))
      × ((j : String) → (m.request_id == j) ≡ false → lookup j w'.requests ≡ lookup j w.requests)
unfolding process_message
process_message_settles c uuid transaction_id m x w found =
    let (s, (success, reply)) =
      perform m.operation_type c (call_of uuid transaction_id m) w.server in
    let first = (update_request_status m.request_id processing_update w.requests).0 in
    (
      refl,
      refl,
      updated_found m.request_id (final_update success reply) first (updated processing_update x)
          (updated_found m.request_id processing_update w.requests x found),
      λ j other.
          updated_other m.request_id j (final_update success reply) first other
          ∙ updated_other m.request_id j processing_update w.requests other,
    )

pub known_found :
    (r : String) (d : Requests) → contains r d ≡ true → (x : Request) × (lookup r d ≡ some x)
known_found r d h = elim (Option-cases (lookup r d)) [
  | inl absent ↦ absurd (clash (lookup-contains r d absent))
  | inr found ↦ found
]
  where
    clash : contains r d ≡ false → ⊥
    clash k = cc

-- The turns of the workers, with what each draws on.
pub record Turn : Type 0 where
  pub context : Context
  pub uuid : String
  pub transaction_id : ℕ

abbrev pub worker_run : List Turn → Service → Service
worker_run [] w = w
worker_run (t ∷ turns) w = worker_run turns (worker_step t.context t.uuid t.transaction_id w)

-- One turn on a queue that is not empty.
turn_settles :
    (t : Turn) (m : OperationMessage) (rest : List OperationMessage) (w : Service)
    → contains m.request_id w.requests ≡ true
    → let w' = process_message t.context t.uuid t.transaction_id m (record w { queue = rest }) in
      (w'.queue ≡ rest)
      × IsSettled m.request_id w'.requests
      × ((j : String) → (m.request_id == j) ≡ false → lookup j w'.requests ≡ lookup j w.requests)
turn_settles t m rest w known =
    let (x, found) = known_found m.request_id w.requests known in
    let (queue, server, result, others) =
      process_message_settles t.context t.uuid t.transaction_id m x (record w { queue = rest })
        found in
    let (s, (success, reply)) =
      perform m.operation_type t.context (call_of t.uuid t.transaction_id m) w.server in
    (
      queue,
      record {
        request = updated (final_update success reply) (updated processing_update x);
        found = result;
        final = final_status success reply;
      },
      others,
    )

worker_step-opened :
    (t : Turn) (q : List OperationMessage) (w : Service)
    → w.queue ≡ q
    → worker_step t.context t.uuid t.transaction_id w
      ≡ take_turn q t.context t.uuid t.transaction_id w
unfolding worker_step
worker_step-opened t q w e = ap (λ x. take_turn x t.context t.uuid t.transaction_id w) e

IsOnce-queue :
    (q : List OperationMessage) (w : Service)
    → w.queue ≡ q
    → IsOnce w
    → IsOnce (record w { queue = q })
IsOnce-queue q w e h = rw (← e) h

IsSettled-kept :
    (j : String) (d d' : Requests) → lookup j d' ≡ lookup j d → IsSettled j d → IsSettled j d'
IsSettled-kept j d d' same h = record {
  request = h.request;
  found = same ∙ h.found;
  final = h.final;
}

parts : (a b : Bool) → (a || b) ≡ false → (a ≡ false) × (b ≡ false)
parts false b h = (refl, h)
parts true b h = cc

-- Turns do not touch a settled request that is not queued.
run_keeps :
    (turns : List Turn) (q : List OperationMessage) (w : Service) (j : String)
    → w.queue ≡ q
    → is_queued j q ≡ false
    → IsOnce w
    → IsSettled j w.requests
    → IsSettled j (worker_run turns w).requests
unfolding take_turn
run_keeps [] q w j e f h s = s
run_keeps (t ∷ turns) [] w j e f h s =
    rw (worker_run, worker_step-opened t [] w e) (run_keeps turns [] w j e f h s)
run_keeps (t ∷ turns) (m ∷ rest) w j e f h s =
    let k = IsOnce-queue (m ∷ rest) w e h in
    let (other, free) = parts (m.request_id == j) (is_queued j rest) f in
    let (queue, _, others) = turn_settles t m rest w k.known.0 in
    rw (worker_run, worker_step-opened t (m ∷ rest) w e)
      (run_keeps turns rest
        (process_message t.context t.uuid t.transaction_id m (record w { queue = rest })) j queue
        free (process_message-IsOnce t.context t.uuid t.transaction_id m rest w k)
        (IsSettled-kept j w.requests _ (others j other) s))

-- As many turns of the workers as there are messages empty the queue, and every request that was
-- queued is then settled: completed or failed. The service has queued and booked each request once.
pub worker_run_settles :
    (turns : List Turn) (q : List OperationMessage) (w : Service)
    → w.queue ≡ q
    → length q ≤ length turns
    → IsOnce w
    → ((worker_run turns w).queue ≡ [])
      × All (λ m. IsSettled m.request_id (worker_run turns w).requests) q
unfolding take_turn
worker_run_settles [] [] w e enough h = (e, tt)
worker_run_settles [] (m ∷ rest) w e enough h = absurd (omega arith)
worker_run_settles (t ∷ turns) [] w e enough h =
    rw (worker_run, worker_step-opened t [] w e) (worker_run_settles turns [] w e (omega arith) h)
worker_run_settles (t ∷ turns) (m ∷ rest) w e enough h =
    let k = IsOnce-queue (m ∷ rest) w e h in
    let w' = process_message t.context t.uuid t.transaction_id m (record w { queue = rest }) in
    let (queue, settled, _) = turn_settles t m rest w k.known.0 in
    let once = process_message-IsOnce t.context t.uuid t.transaction_id m rest w k in
    let (empty, others) = worker_run_settles turns rest w' queue (omega arith) once in
    let run : worker_run (t ∷ turns) w ≡ worker_run turns w' =
      ap (worker_run turns) (worker_step-opened t (m ∷ rest) w e) in
    let moved : (j : String)
        → IsSettled j (worker_run turns w').requests
        → IsSettled j (worker_run (t ∷ turns) w).requests =
      λ j s. IsSettled-kept j _ _ (ap (λ v. lookup j v.requests) run) s in
    (
      ap (λ v. v.queue) run ∙ empty,
      (
        moved m.request_id (run_keeps turns rest w' m.request_id queue k.distinct.0 once settled),
        All-imp rest (λ x s. moved x.request_id s) others,
      ),
    )
