-- ===== src/Idempotency.antt =====
-- src/core/idempotency.py: the table of requests, `RequestIdempotency`.
-- The table is a dict under the request id, which is its primary key. The clock, the uuid and the
-- text of a number are arguments. Of the data of a request the model keeps the amount.
use mobile_money_simulator.Prelude.{
  ℕ, zero, suc, ◌+◌, ◌-◌, ◌*◌, String, Bool, true, false, [], ◌∷◌, Option, none, some, ltb, leb,
  length, if◌then◌else◌, string_eq,
}
use mobile_money_simulator.Prelude.Int.{ℤ}
use mobile_money_simulator.Dict.{Dict, lookup, insert}
use mobile_money_simulator.EventLog.{nonempty}
use mobile_money_simulator.Database.{RequestStatus}
use mobile_money_simulator.Operations.{Reply}
use Prim.Native.String.{◌++◌}

-- What is kept as the answer to a request: the progress of the worker, or an operation's reply.
pub data ResponseData : Type 0 where
  status_processing no_data : ResponseData
  replied : Reply → ResponseData

pub record Request : Type 0 where
  pub request_id : String
  pub account_id : ℕ
  pub phone_number : String
  pub operation_type : String
  pub amount : ℤ
  pub status : RequestStatus
  pub response_code : Option ℕ
  pub response_data : Option ResponseData
  pub error_message : Option Reply
  pub client_ip : String
  pub expires_at : Option ℕ
  pub server_id : String

abbrev pub Requests : Type 0
Requests = Dict String Request

-- With a reference of the client the id depends on the phone number and the reference alone; an
-- empty reference is false in Python. `uuid` is the eight characters that are used of it.
unfoldable pub generate_request_id :
    (ℕ → String) → String → ℕ → String → String → Option String → String
generate_request_id str server_id milliseconds uuid phone_number (some reference) =
    if nonempty reference
    then "ref_" ++ (phone_number ++ ("_" ++ reference))
    else server_id ++ ("_" ++ (str milliseconds ++ ("_" ++ (uuid ++ ("_" ++ phone_number)))))
generate_request_id str server_id milliseconds uuid phone_number none =
    server_id ++ ("_" ++ (str milliseconds ++ ("_" ++ (uuid ++ ("_" ++ phone_number)))))

-- What a caller says of a request.
pub record NewRequest : Type 0 where
  pub request_id : String
  pub account_id : ℕ
  pub phone_number : String
  pub operation_type : String
  pub amount : ℤ
  pub client_ip : String

abbrev pub entry_of : String → ℕ → ℕ → NewRequest → Request
entry_of server_id now ttl_seconds r = record {
  request_id = r.request_id;
  account_id = r.account_id;
  phone_number = r.phone_number;
  operation_type = r.operation_type;
  amount = r.amount;
  status = RequestStatus.received;
  response_code = none;
  response_data = none;
  error_message = none;
  client_ip = r.client_ip;
  expires_at = some (now + ttl_seconds * 1000000);
  server_id = server_id;
}

abbrev pub entered : Option Request → String → ℕ → ℕ → NewRequest → Requests → Requests × Bool
entered (some existing) server_id now ttl_seconds r requests = (requests, false)
entered none server_id now ttl_seconds r requests =
    (insert r.request_id (entry_of server_id now ttl_seconds r) requests, true)

unfoldable pub create_request_entry : String → ℕ → ℕ → NewRequest → Requests → Requests × Bool
create_request_entry server_id now ttl_seconds r requests =
    entered (lookup r.request_id requests) server_id now ttl_seconds r requests

unfoldable pub get_request : String → Requests → Option Request
get_request request_id requests = lookup request_id requests

abbrev pub is_past : ℕ → Option ℕ → Bool
is_past now none = false
is_past now (some t) = ltb t now

abbrev pub completed_answer : RequestStatus → Option ResponseData → Bool × Option ResponseData
completed_answer RequestStatus.completed d = (true, d)
completed_answer _ d = (false, none)

abbrev pub duplicate_answer : ℕ → Option Request → Bool × Option ResponseData
duplicate_answer now none = (false, none)
duplicate_answer now (some r) =
    if is_past now r.expires_at then (false, none) else completed_answer r.status r.response_data

unfoldable pub is_duplicate_request : ℕ → String → Requests → Bool × Option ResponseData
is_duplicate_request now request_id requests = duplicate_answer now (lookup request_id requests)

-- `response_code or 200`
abbrev pub code_or_ok : Option ℕ → ℕ
code_or_ok none = 200
code_or_ok (some zero) = 200
code_or_ok (some (suc n)) = suc n

-- The new status of a request, with its code, data and message.
pub record Update : Type 0 where
  pub status : RequestStatus
  pub response_code : Option ℕ
  pub response_data : Option ResponseData
  pub error_message : Option Reply

abbrev pub updated : Update → Request → Request
updated u r = record r {
  status = u.status;
  response_code = some (code_or_ok u.response_code);
  response_data = u.response_data;
  error_message = u.error_message;
}

abbrev pub update_found : Option Request → String → Update → Requests → Requests × Bool
update_found none request_id u requests = (requests, false)
update_found (some r) request_id u requests = (insert request_id (updated u r) requests, true)

unfoldable pub update_request_status : String → Update → Requests → Requests × Bool
update_request_status request_id u requests =
    update_found (lookup request_id requests) request_id u requests

-- `expires_at <= now`; no time of expiry never passes.
abbrev pub has_expired : ℕ → Request → Bool
has_expired now r = elim r.expires_at as (λ _. Bool) [ none ↦ false | some t ↦ leb t now ]

abbrev pub unexpired : ℕ → Requests → Requests
unexpired now [] = []
unexpired now ((k, r) ∷ d) =
    let rest = unexpired now d in if has_expired now r then rest else (k, r) ∷ rest

unfoldable pub cleanup_expired_requests : ℕ → Requests → Requests × ℕ
cleanup_expired_requests now requests =
    (unexpired now requests, length requests - length (unexpired now requests))
