-- ===== src/Worker/Growth.antt =====
-- The table of requests only grows over runs of submissions and turns of the workers: nothing calls
-- the clean-up of expired requests.
use mobile_money_simulator.Prelude.{
  ℕ, String, ◌≡◌, refl, inl, inr, Bool, true, false, not, List, [], ◌∷◌, ◌++◌, none, some,
  if◌then◌else◌, Option-cases, string_eq,
}
use mobile_money_simulator.Dict.{lookup, contains, insert}
use mobile_money_simulator.Idempotency.{
  NewRequest, entry_of, create_request_entry, update_request_status,
}
use mobile_money_simulator.Operations.{Context, Resolution, resolve_account}
use mobile_money_simulator.Worker.{
  OperationType, OperationMessage, Service, Submission, Draws, enqueue, call_of, perform,
  processing_update, final_update, process_message, take_turn, worker_step, submit, submit_for,
  after_entry, message_of, request_of, ttl, enqueued, start, stop,
}
use mobile_money_simulator.Worker.Once.{Grows, Grows-insert, Grows-update, Step, Run}

enqueued-Grows :
    (m : OperationMessage) (w w' : Service) (k : String)
    → w.requests ≡ w'.requests
    → Grows w'.requests (enqueued (enqueue m w) w k).0.requests
unfolding enqueue
enqueued-Grows m w w' k same = either w.started
  where
    either :
        (b : Bool)
        → Grows w'.requests
            (enqueued
              (if not b then none else some (record w { queue = w.queue ++ m ∷ [] }))
              w
              k).0.requests
    either true r h = rw same h
    either false r h = rw same h

after_entry-Grows :
    (c : Context) (r : NewRequest) (m : OperationMessage) (ttl_seconds : ℕ) (w : Service)
    → Grows w.requests
        (after_entry
          (create_request_entry c.server_id c.now ttl_seconds r w.requests)
          m
          w).0.requests
unfolding create_request_entry
after_entry-Grows c r m ttl_seconds w j h = elim (Option-cases (lookup r.request_id w.requests)) [
  | inr (x, found) ↦ rw found h
  | inl absent ↦
      let x = entry_of c.server_id c.now ttl_seconds r in
      let w' = record w { requests = insert r.request_id x w.requests } in
      rw absent
        (enqueued-Grows m w' w' m.request_id refl j (Grows-insert r.request_id x w.requests j h))
]

submit-Grows :
    (op : OperationType) (c : Context) (d : Draws) (b : Submission) (w : Service)
    → Grows w.requests (submit op c d b w).0.requests
unfolding submit
submit-Grows op c d b w j h =
    resolved (resolve_account b.account_id (some b.phone_number) w.server.database)
  where
    resolved : (r : Resolution) → contains j (submit_for r c d op b w).0.requests ≡ true
    resolved (Resolution.found_by_phone a) =
        after_entry-Grows c (request_of c d op a.account_id b) (message_of c d op a.account_id b)
          ttl w j h
    resolved (Resolution.found_by_id a) =
        after_entry-Grows c (request_of c d op a.account_id b) (message_of c d op a.account_id b)
          ttl w j h
    resolved Resolution.no_phone = h
    resolved Resolution.no_account = h
    resolved Resolution.nothing_given = h

worker_step-Grows :
    (c : Context) (uuid : String) (transaction_id : ℕ) (w : Service)
    → Grows w.requests (worker_step c uuid transaction_id w).requests
unfolding worker_step take_turn process_message
worker_step-Grows c uuid transaction_id w j h = turn w.queue
  where
    turn :
        (q : List OperationMessage)
        → contains j (take_turn q c uuid transaction_id w).requests ≡ true
    turn [] = h
    turn (m ∷ rest) =
        let (s, (success, reply)) =
          perform m.operation_type c (call_of uuid transaction_id m) w.server in
        let first = (update_request_status m.request_id processing_update w.requests).0 in
        Grows-update m.request_id (final_update success reply) first j
          (Grows-update m.request_id processing_update w.requests j h)

-- No step takes a request from the table.
Step-Grows : (w v : Service) → Step w v → Grows w.requests v.requests
Step-Grows w _ (Step.submitted op c d b) = submit-Grows op c d b w
Step-Grows w _ (Step.worked c uuid transaction_id) = worker_step-Grows c uuid transaction_id w
Step-Grows w _ Step.restarted = unfold start in λ r h. h
Step-Grows w _ Step.stopped = unfold stop in λ r h. h

pub Run-Grows : (w v : Service) → Run w v → Grows w.requests v.requests
Run-Grows w _ Run.here = λ r h. h
Run-Grows w u (Run.later {v = v} run st) = λ r h. Step-Grows v u st r (Run-Grows w v run r h)
