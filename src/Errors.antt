-- ===== src/Errors.antt =====
-- Application errors (src/lib/errors.ts) and what the client is told of them
-- (src/middleware/errorHandler.ts). The details of an error are given by their JSON text.
pub mod Disclosure
mod Tests
use implement_offering_valid.Common.{
  ℕ, String, Bool, true, false, ◌&&◌, not, Option, none, some, if◌then◌else◌, is_missing,
}

pub data ErrorCode : Type 0 where
  validation bad_input unauthenticated denied missing clash unavailable internal_error : ErrorCode

pub record ErrorResponse : Type 0 where
  pub code : ErrorCode
  pub message : String
  pub details : Option String
  pub request_id : Option String

pub record AppError : Type 0 where
  pub code : ErrorCode
  pub message : String
  pub status_code : ℕ
  pub details : Option String
  pub expose : Bool

-- `expose` is true where the options do not say.
unfoldable pub create_error : ErrorCode → String → ℕ → Option String → Option Bool → AppError
create_error code message status details expose = record {
  code = code;
  message = message;
  status_code = status;
  details = details;
  expose = elim (expose) [ none ↦ true | some b ↦ b ];
}

abbrev pub validation_error : String → Option String → AppError
validation_error m details = create_error validation m 400 details none

abbrev pub bad_request : String → Option String → AppError
bad_request m details = create_error bad_input m 400 details none

abbrev pub unauthorized : String → AppError
unauthorized m = create_error unauthenticated m 401 none none

abbrev pub forbidden : String → AppError
forbidden m = create_error denied m 403 none none

abbrev pub not_found : String → AppError
not_found m = create_error missing m 404 none none

abbrev pub conflict : String → Option String → AppError
conflict m details = create_error clash m 409 details none

abbrev pub service_unavailable : String → Option String → AppError
service_unavailable m details = create_error unavailable m 503 details none

abbrev pub internal : Option String → AppError
internal details = create_error internal_error "Internal server error" 500 details (some false)

unfoldable pub to_response : Option String → AppError → ErrorResponse
to_response request_id e = record {
  code = e.code;
  message = e.message;
  details = e.details;
  request_id = request_id;
}

-- What may be thrown: an `AppError`, or another value, with the message and the stack of an `Error`, where
-- it is one.
pub data Thrown : Type 0 where
  app : AppError → (stack : Option String) → Thrown
  other : (message stack : Option String) → Thrown

unfoldable pub map_unknown_error_to_app_error : Thrown → AppError
map_unknown_error_to_app_error (app e stack) = e
map_unknown_error_to_app_error (other message stack) = internal none

abbrev stack_of : Thrown → Option String
stack_of (app e stack) = stack
stack_of (other message stack) = stack

abbrev own_details : Thrown → Option String
own_details (app e stack) = e.details
own_details (other message stack) = none

pub record LogEntry : Type 0 where
  pub request_id : Option String
  pub code : ErrorCode
  pub status_code : ℕ
  pub message : String
  pub expose : Bool
  pub details : Option String
  pub stack : Option String

unfoldable pub create_structured_error_log_entry : Bool → Thrown → Option String → LogEntry
create_structured_error_log_entry is_production t request_id =
    let mapped = map_unknown_error_to_app_error t in
    record {
      request_id = request_id;
      code = mapped.code;
      status_code = mapped.status_code;
      message = mapped.message;
      expose = mapped.expose;
      details = own_details t;
      stack = if not is_production && not (is_missing (stack_of t)) then stack_of t else none;
    }

pub record Answer : Type 0 where
  pub status : ℕ
  pub body : ErrorResponse
  pub log : LogEntry

unfoldable pub error_handler : Bool → Option String → Thrown → Answer
error_handler is_production request_id t =
    let mapped = map_unknown_error_to_app_error t in
    record {
      status = mapped.status_code;
      body =
          if mapped.expose
          then to_response request_id mapped
          else to_response request_id (internal none);
      log = create_structured_error_log_entry is_production t request_id;
    }
