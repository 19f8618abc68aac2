-- ===== src/Worker/Tests.antt =====
-- A service with two accounts, and inputs that meet the hypotheses of the theorems about it.
use mobile_money_simulator.Prelude.{
  ◌≡◌, refl, true, List, [], ◌∷◌, none, some, arith, All, string_eq,
}
use mobile_money_simulator.Prelude.Int.{pos}
use mobile_money_simulator.Checkpoint.Tests.{unary}
use mobile_money_simulator.Idempotency.{generate_request_id, create_request_entry}
use mobile_money_simulator.Operations.{resolve_account}
use mobile_money_simulator.Operations.Tests.{server, context}
use mobile_money_simulator.Worker.{
  OperationType, Service, Submission, Draws, RouteReply, submit, worker_step, enqueue, message_of,
}
use mobile_money_simulator.Worker.Once.{IsOnce, Run, Step, Run-IsOnce}
use mobile_money_simulator.Worker.Progress.{IsSettled, Turn, worker_run, worker_run_settles}
use mobile_money_simulator.Worker.Repeated.{submit_repeated}

abbrev service : Service
service = record { server = server; requests = []; queue = []; started = true }

abbrev draws : Draws
draws = record { str = unary; milliseconds = 3; uuid = "abcdefgh" }

abbrev submission : Submission
submission = record {
  account_id = none;
  phone_number = "0711";
  amount = pos 30;
  client_ip = "127.0.0.1";
  client_reference = some "rent";
}

service-IsOnce : IsOnce service
service-IsOnce = record { distinct = tt; known = tt; unbooked = tt; booked_known = tt }

Run-IsOnce_example :
    IsOnce (
      worker_step context "u1" 1 (submit OperationType.withdraw context draws submission service).0)
Run-IsOnce_example =
    Run-IsOnce service
      (worker_step context "u1" 1
        (submit OperationType.withdraw context draws submission service).0)
      service-IsOnce
      (Run.later
        (Run.later Run.here (Step.submitted OperationType.withdraw context draws submission))
        (Step.worked context "u1" 1))

accepted_first :
    (submit OperationType.withdraw context draws submission service).1
    ≡ RouteReply.accepted "ref_0711_rent"
unfolding submit resolve_account create_request_entry generate_request_id enqueue
accepted_first = refl

submit_repeated_example :
    let w1 = (submit OperationType.withdraw context draws submission service).0 in
    let v = worker_step context "u1" 1 w1 in
    (submit OperationType.deposit context draws (record submission { amount = pos 5 }) v).0 ≡ v
submit_repeated_example =
    let w1 = (submit OperationType.withdraw context draws submission service).0 in
    submit_repeated OperationType.withdraw OperationType.deposit context context draws draws
      submission (record submission { amount = pos 5 }) service (worker_step context "u1" 1 w1)
      "ref_0711_rent" "rent" refl refl refl refl accepted_first
      (Run.later Run.here (Step.worked context "u1" 1))

queued_first :
    (submit OperationType.withdraw context draws submission service).0.queue
    ≡ message_of context draws OperationType.withdraw 1 submission ∷ []
unfolding submit resolve_account create_request_entry enqueue
queued_first = refl

worker_run_settles_example :
    let w = (submit OperationType.withdraw context draws submission service).0 in
    let turns : List Turn = record { context = context; uuid = "u1"; transaction_id = 1 } ∷ [] in
    ((worker_run turns w).queue ≡ [])
    × All
        (λ m. IsSettled m.request_id (worker_run turns w).requests)
        (message_of context draws OperationType.withdraw 1 submission ∷ [])
worker_run_settles_example =
    worker_run_settles (record { context = context; uuid = "u1"; transaction_id = 1 } ∷ [])
      (message_of context draws OperationType.withdraw 1 submission ∷ [])
      (submit OperationType.withdraw context draws submission service).0 queued_first (omega arith)
      (Run-IsOnce service (submit OperationType.withdraw context draws submission service).0
        service-IsOnce
        (Run.later Run.here (Step.submitted OperationType.withdraw context draws submission)))
