-- ===== src/Worker/Repeated.antt =====
-- A repeated submission is not queued again.
use mobile_money_simulator.Prelude.{
  String, ◌≡◌, refl, ap, ◌∙◌, inl, inr, Bool, true, false, not, [], ◌∷◌, ◌++◌, Option, none, some,
  if◌then◌else◌, Bool-cases, sym, beq_refl, string_eq,
}
use mobile_money_simulator.Dict.{lookup, contains, insert, lookup-insert, contains-lookup}
use mobile_money_simulator.EventLog.{nonempty}
use mobile_money_simulator.Database.{RequestStatus}
use mobile_money_simulator.Idempotency.{
  Request, Requests, NewRequest, ResponseData, entry_of, entered, create_request_entry,
  generate_request_id,
}
use mobile_money_simulator.Operations.{Context, Resolution, resolve_account}
use mobile_money_simulator.Worker.{
  OperationType, OperationMessage, Service, Submission, Draws, RouteReply, enqueue, submit,
  submit_for, after_entry, id_of, message_of, duplicate_reply, status_reply, request_of, ttl,
  enqueued,
}
use mobile_money_simulator.Worker.Once.{Run}
use mobile_money_simulator.Worker.Growth.{Run-Grows}
use mobile_money_simulator.Worker.Progress.{known_found}

-- A submission under a request id that is in the table changes nothing.
submit_known :
    (op : OperationType) (c : Context) (d : Draws) (b : Submission) (w : Service) (x : Request)
    → lookup (id_of c d b) w.requests ≡ some x
    → (submit op c d b w).0 ≡ w
unfolding submit create_request_entry
submit_known op c d b w x known =
    resolved (resolve_account b.account_id (some b.phone_number) w.server.database)
  where
    resolved : (r : Resolution) → (submit_for r c d op b w).0 ≡ w
    resolved (Resolution.found_by_phone a) = rw known refl
    resolved (Resolution.found_by_id a) = rw known refl
    resolved Resolution.no_phone = refl
    resolved Resolution.no_account = refl
    resolved Resolution.nothing_given = refl

-- A submission is accepted only with its request in the table.
accepted_known :
    (c : Context) (r : NewRequest) (m : OperationMessage) (w : Service) (k : String)
    → m.request_id ≡ r.request_id
    → let result = after_entry (create_request_entry c.server_id c.now ttl r w.requests) m w in
      result.1 ≡ RouteReply.accepted k
      → (x : Request) × (lookup r.request_id result.0.requests ≡ some x)
unfolding create_request_entry
accepted_known c r m w k same = known (lookup r.request_id w.requests)
  where
    no_duplicate : (o : Option Request) → duplicate_reply o ≡ RouteReply.accepted k → ⊥
    no_duplicate none h = cc
    no_duplicate (some x) h = by_status x.status x.response_data h
      where
        by_status :
            (s : RequestStatus) (d : Option ResponseData)
            → status_reply s d ≡ RouteReply.accepted k
            → ⊥
        by_status RequestStatus.received d h = cc
        by_status RequestStatus.processing d h = cc
        by_status RequestStatus.completed d h = cc
        by_status RequestStatus.failed d h = cc

    put :
        (b : Bool) (w1 w2 : Service) (x : Request)
        → lookup r.request_id w1.requests ≡ some x
        → let result = enqueued (if not b then none else some w1) w2 m.request_id in
          result.1 ≡ RouteReply.accepted k
          → (y : Request) × (lookup r.request_id result.0.requests ≡ some y)
    put true w1 w2 x found h = (x, found)
    put false w1 w2 x found h = cc

    known :
        (o : Option Request)
        → let result = after_entry (entered o c.server_id c.now ttl r w.requests) m w in
          result.1 ≡ RouteReply.accepted k
          → (x : Request) × (lookup r.request_id result.0.requests ≡ some x)
    known (some x) h = absurd (no_duplicate _ h)
    known none h =
        let x = entry_of c.server_id c.now ttl r in
        let w' = record w { requests = insert r.request_id x w.requests } in
        unfold enqueue in
        put w.started (record w' { queue = w'.queue ++ m ∷ [] }) w' x
          (lookup-insert r.request_id r.request_id x w.requests ∙ rw (beq_refl r.request_id) refl) h

submit_accepted :
    (op : OperationType) (c : Context) (d : Draws) (b : Submission) (w : Service) (k : String)
    → (submit op c d b w).1 ≡ RouteReply.accepted k
    → (x : Request) × (lookup (id_of c d b) (submit op c d b w).0.requests ≡ some x)
unfolding submit
submit_accepted op c d b w k =
    resolved (resolve_account b.account_id (some b.phone_number) w.server.database)
  where
    resolved :
        (r : Resolution)
        → (submit_for r c d op b w).1 ≡ RouteReply.accepted k
        → (x : Request) × (lookup (id_of c d b) (submit_for r c d op b w).0.requests ≡ some x)
    resolved (Resolution.found_by_phone a) h =
        accepted_known c (request_of c d op a.account_id b) (message_of c d op a.account_id b) w k
          refl h
    resolved (Resolution.found_by_id a) h =
        accepted_known c (request_of c d op a.account_id b) (message_of c d op a.account_id b) w k
          refl h
    resolved Resolution.no_phone h = cc
    resolved Resolution.no_account h = cc
    resolved Resolution.nothing_given h = cc

same_id :
    (c c' : Context) (d d' : Draws) (b b' : Submission) (reference : String)
    → nonempty reference ≡ true
    → b.client_reference ≡ some reference
    → b'.client_reference ≡ some reference
    → b'.phone_number ≡ b.phone_number
    → id_of c' d' b' ≡ id_of c d b
unfolding generate_request_id
same_id c c' d d' b b' reference given e e' phone =
    rw (e, e', generate_request_id) (rw (given, phone) refl)

known_contained :
    (k : String) (d : Requests) (x : Request) → lookup k d ≡ some x → contains k d ≡ true
known_contained k d x found = elim (Bool-cases (contains k d)) [
  | inl known ↦ known
  | inr absent ↦ absurd (clash (contains-lookup k d absent))
]
  where
    clash : lookup k d ≡ none → ⊥
    clash e = none_some (sym e ∙ found)
      where
        none_some : none ≡ some x → ⊥
        none_some h = cc

-- Once a submission with a reference has been accepted, every later submission from the same phone
-- number with the same reference changes nothing, also one for the other operation or another
-- amount: a deposit under the reference of a withdrawal is not queued. In between there may be any
-- submissions, turns of the workers, starts and stops.
pub submit_repeated :
    (op op' : OperationType) (c c' : Context) (d d' : Draws) (b b' : Submission) (w v : Service)
    (k reference : String)
    → nonempty reference ≡ true
    → b.client_reference ≡ some reference
    → b'.client_reference ≡ some reference
    → b'.phone_number ≡ b.phone_number
    → (submit op c d b w).1 ≡ RouteReply.accepted k
    → Run (submit op c d b w).0 v
    → (submit op' c' d' b' v).0 ≡ v
submit_repeated op op' c c' d d' b b' w v k reference given e e' phone accepted run =
    let (x, found) = submit_accepted op c d b w k accepted in
    let w1 = (submit op c d b w).0 in
    let (y, still) =
      known_found (id_of c d b) v.requests
        (Run-Grows w1 v run (id_of c d b) (known_contained (id_of c d b) w1.requests x found)) in
    submit_known op' c' d' b' v y
      (ap (λ r. lookup r v.requests) (same_id c c' d d' b b' reference given e e' phone) ∙ still)
