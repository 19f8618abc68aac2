-- ===== src/Worker.antt =====
-- src/core/async_messaging.py: `OperationMessage` and the `AsyncOperationProcessor`, with the
-- routes of src/api/routes.py that submit withdrawals and deposits to it. The workers take one
-- message at a time; a step is the processing of the message at the front of the queue. The tables
-- of the server and of the requests are the session's.
pub mod Once
pub mod Progress
pub mod Growth
pub mod Repeated
pub mod Tests
use mobile_money_simulator.Prelude.{
  ℕ, String, Bool, true, false, not, List, [], ◌∷◌, ◌++◌, Option, none, some, if◌then◌else◌, length,
}
use mobile_money_simulator.Prelude.Int.{ℤ}
use mobile_money_simulator.Dict.{lookup}
use mobile_money_simulator.Database.{Account, RequestStatus}
use mobile_money_simulator.Idempotency.{
  Request, Requests, ResponseData, NewRequest, Update, generate_request_id, create_request_entry,
  get_request, update_request_status,
}
use mobile_money_simulator.Operations.{Server, Context, Reply, Resolution, resolve_account}
use mobile_money_simulator.Operations.Single.{Call}
use mobile_money_simulator.Operations.Single

-- The operations that a message can name.
pub data OperationType : Type 0 where
  withdraw deposit : OperationType
  unsupported : String → OperationType

pub record OperationMessage : Type 0 where
  pub request_id : String
  pub operation_type : OperationType
  pub account_id : ℕ
  pub phone_number : String
  pub amount : ℤ

-- The server, its requests, and the queue of the processor, if that has been started.
pub record Service : Type 0 where
  pub server : Server
  pub requests : Requests
  pub queue : List OperationMessage
  pub started : Bool

unfoldable pub start : Service → Service
start w = record w { started = true }

unfoldable pub stop : Service → Service
stop w = record w { started = false }

-- A processor that is not started raises.
unfoldable pub enqueue : OperationMessage → Service → Option Service
enqueue message w =
    if not w.started then none else some (record w { queue = w.queue ++ message ∷ [] })

unfoldable pub queue_size : Service → ℕ
queue_size w = length w.queue

abbrev pub call_of : String → ℕ → OperationMessage → Call
call_of uuid transaction_id m = record {
  uuid = uuid;
  transaction_id = transaction_id;
  account_id = m.account_id;
  phone_number = m.phone_number;
  amount = m.amount;
  request_id = m.request_id;
}

-- The operation that a message asks for; an unsupported one gives no reply of an operation.
abbrev pub perform : OperationType → Context → Call → Server → Server × (Bool × Option Reply)
perform OperationType.withdraw c call s =
    let (s', (success, reply)) = Single.withdraw c call s in (s', (success, some reply))
perform OperationType.deposit c call s =
    let (s', (success, reply)) = Single.deposit c call s in (s', (success, some reply))
perform (OperationType.unsupported name) c call s = (s, (false, none))

abbrev pub processing_update : Update
processing_update = record {
  status = RequestStatus.processing;
  response_code = some 202;
  response_data = some ResponseData.status_processing;
  error_message = none;
}

abbrev pub data_of : Option Reply → ResponseData
data_of none = ResponseData.no_data
data_of (some reply) = ResponseData.replied reply

abbrev pub final_update : Bool → Option Reply → Update
final_update true reply = record {
  status = RequestStatus.completed;
  response_code = some 200;
  response_data = some (data_of reply);
  error_message = none;
}
final_update false reply = record {
  status = RequestStatus.failed;
  response_code = some 400;
  response_data = some (data_of reply);
  error_message = reply;
}

abbrev pub settle : String → Service → Server × (Bool × Option Reply) → Service
settle request_id w (s, (success, reply)) = record w {
  server = s;
  requests = (update_request_status request_id (final_update success reply) w.requests).0;
}

unfoldable pub process_message : Context → String → ℕ → OperationMessage → Service → Service
unfolding Single.withdraw Single.deposit update_request_status
process_message c uuid transaction_id m w =
    let requests = (update_request_status m.request_id processing_update w.requests).0 in
    settle m.request_id (record w { requests = requests })
      (perform m.operation_type c (call_of uuid transaction_id m) w.server)

unfoldable pub take_turn : List OperationMessage → Context → String → ℕ → Service → Service
unfolding process_message
take_turn [] c uuid transaction_id w = w
take_turn (m ∷ rest) c uuid transaction_id w =
    process_message c uuid transaction_id m (record w { queue = rest })

-- One turn of a worker: the message at the front.
unfoldable pub worker_step : Context → String → ℕ → Service → Service
unfolding take_turn
worker_step c uuid transaction_id w = take_turn w.queue c uuid transaction_id w

-- The body of a request to the routes of withdrawals and deposits.
pub record Submission : Type 0 where
  pub account_id : Option ℕ
  pub phone_number : String
  pub amount : ℤ
  pub client_ip : String
  pub client_reference : Option String

pub data RouteReply : Type 0 where
  not_found : Resolution → RouteReply
  cached_response : Option ResponseData → RouteReply
  already_queued : RequestStatus → RouteReply
  conflict server_error : RouteReply
  accepted : String → RouteReply

-- What the routes draw on for a request id without a reference.
pub record Draws : Type 0 where
  pub str : ℕ → String
  pub milliseconds : ℕ
  pub uuid : String

abbrev pub id_of : Context → Draws → Submission → String
id_of c d b =
    generate_request_id d.str c.server_id d.milliseconds d.uuid b.phone_number b.client_reference

abbrev pub name_of : OperationType → String
name_of OperationType.withdraw = "withdraw"
name_of OperationType.deposit = "deposit"
name_of (OperationType.unsupported name) = name

abbrev pub request_of : Context → Draws → OperationType → ℕ → Submission → NewRequest
request_of c d op account_id b = record {
  request_id = id_of c d b;
  account_id = account_id;
  phone_number = b.phone_number;
  operation_type = name_of op;
  amount = b.amount;
  client_ip = b.client_ip;
}

abbrev pub message_of : Context → Draws → OperationType → ℕ → Submission → OperationMessage
message_of c d op account_id b = record {
  request_id = id_of c d b;
  operation_type = op;
  account_id = account_id;
  phone_number = b.phone_number;
  amount = b.amount;
}

abbrev pub status_reply : RequestStatus → Option ResponseData → RouteReply
status_reply RequestStatus.completed d = RouteReply.cached_response d
status_reply RequestStatus.received d = RouteReply.already_queued RequestStatus.received
status_reply RequestStatus.processing d = RouteReply.already_queued RequestStatus.processing
status_reply RequestStatus.failed d = RouteReply.conflict

abbrev pub duplicate_reply : Option Request → RouteReply
duplicate_reply none = RouteReply.conflict
duplicate_reply (some r) = status_reply r.status r.response_data

-- The answer to a put into the queue, or to its exception.
abbrev pub enqueued : Option Service → Service → String → Service × RouteReply
enqueued none w request_id = (w, RouteReply.server_error)
enqueued (some w') w request_id = (w', RouteReply.accepted request_id)

abbrev pub after_entry : Requests × Bool → OperationMessage → Service → Service × RouteReply
after_entry (requests, true) m w =
    let w' = record w { requests = requests } in enqueued (enqueue m w') w' m.request_id
after_entry (requests, false) m w = (w, duplicate_reply (get_request m.request_id w.requests))

-- The request table's time to live, `ttl_seconds`, has the default of an hour.
abbrev pub ttl : ℕ
ttl = 3600

abbrev pub submit_for :
    Resolution → Context → Draws → OperationType → Submission → Service → Service × RouteReply
submit_for (Resolution.found_by_phone a) c d op b w =
    after_entry
      (create_request_entry c.server_id c.now ttl (request_of c d op a.account_id b) w.requests)
      (message_of c d op a.account_id b) w
submit_for (Resolution.found_by_id a) c d op b w =
    after_entry
      (create_request_entry c.server_id c.now ttl (request_of c d op a.account_id b) w.requests)
      (message_of c d op a.account_id b) w
submit_for Resolution.no_phone c d op b w = (w, RouteReply.not_found Resolution.no_phone)
submit_for Resolution.no_account c d op b w = (w, RouteReply.not_found Resolution.no_account)
submit_for Resolution.nothing_given c d op b w = (w, RouteReply.not_found Resolution.nothing_given)

-- The routes `withdraw` and `deposit`, which differ in the operation alone.
unfoldable pub submit :
    OperationType → Context → Draws → Submission → Service → Service × RouteReply
unfolding resolve_account create_request_entry generate_request_id enqueue get_request
submit op c d b w =
    submit_for (resolve_account b.account_id (some b.phone_number) w.server.database) c d op b w
