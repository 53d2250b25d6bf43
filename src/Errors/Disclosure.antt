-- ===== src/Errors/Disclosure.antt =====
-- What an answer and its log entry disclose of what was thrown.
use implement_offering_valid.Common.{
  String, ◌≡◌, refl, inl, inr, Bool, true, Option, none, if◌then◌else◌, Bool-cases,
}
use implement_offering_valid.Errors.{
  AppError, ErrorResponse, internal_error, Thrown, app, other, internal,
  map_unknown_error_to_app_error, to_response, create_structured_error_log_entry, Answer,
  error_handler, create_error,
}

-- The body that tells nothing.
abbrev pub generic : Option String → ErrorResponse
generic request_id = record {
  code = internal_error;
  message = "Internal server error";
  details = none;
  request_id = request_id;
}

-- The body with what the error itself says.
abbrev pub told : Option String → AppError → ErrorResponse
told request_id e = record {
  code = e.code;
  message = e.message;
  details = e.details;
  request_id = request_id;
}

-- The status 500, the body that tells nothing, and a log entry with the same message.
abbrev pub IsGeneric : Option String → Answer → Type 0
IsGeneric request_id a =
    (a.status ≡ 500) × (a.body ≡ generic request_id) × (a.log.message ≡ "Internal server error")

body_of_app :
    (is_production : Bool) (request_id stack : Option String) (e : AppError)
    → (error_handler is_production request_id (app e stack)).body
      ≡ (if e.expose then told request_id e else generic request_id)
unfolding error_handler map_unknown_error_to_app_error to_response create_error
body_of_app is_production request_id stack e = elim (Bool-cases e.expose) [
  | inl h ↦ rw h refl
  | inr h ↦ rw h refl
]

-- Nothing of an unknown value is told, whatever its message and its stack; nothing of the details of
-- an internal error is, either. Any other application error is answered with its own status, and with
-- its code, message and details exactly where it is to be exposed. In production no stack is logged.
pub error_handler_hides :
    (is_production : Bool) (request_id message details stack : Option String) (e : AppError)
    (t : Thrown)
    → IsGeneric request_id (error_handler is_production request_id (other message stack))
      × IsGeneric request_id (error_handler is_production request_id (app (internal details) stack))
      × ((error_handler is_production request_id (app e stack)).status ≡ e.status_code)
      × ((error_handler is_production request_id (app e stack)).body
          ≡ (if e.expose then told request_id e else generic request_id))
      × ((error_handler true request_id t).log.stack ≡ none)
unfolding error_handler map_unknown_error_to_app_error to_response create_error
    create_structured_error_log_entry
error_handler_hides is_production request_id message details stack e t = (
  (refl, refl, refl),
  (refl, refl, refl),
  refl,
  body_of_app is_production request_id stack e,
  refl,
)
