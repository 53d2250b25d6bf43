-- ===== src/Errors/Tests.antt =====
-- The error handler at concrete values.
use implement_offering_valid.Common.{◌≡◌, refl, true, none, some, Option, String, if◌then◌else◌}
use implement_offering_valid.Errors.{
  AppError, app, other, internal, not_found, missing, error_handler, to_response, create_error,
  map_unknown_error_to_app_error, create_structured_error_log_entry,
}
use implement_offering_valid.Errors.Disclosure.{IsGeneric, generic, told, error_handler_hides}

exposed_message :
    (error_handler true (some "r1") (app (not_found "No offering") none)).body
    ≡ record { code = missing; message = "No offering"; details = none; request_id = some "r1" }
unfolding error_handler map_unknown_error_to_app_error to_response create_error
exposed_message = refl

production_hides_stack : (error_handler true none (other none (some "at x.ts:1"))).log.stack ≡ none
unfolding error_handler create_structured_error_log_entry
production_hides_stack = refl

abbrev secret : AppError
secret = internal (some "password=hunter2")

abbrev crash : Option String
crash = some "connect ECONNREFUSED 10.0.0.7:5432"

error_handler_hides_example :
    IsGeneric (some "r1") (error_handler true (some "r1") (other crash (some "at db.ts:9")))
    × IsGeneric (some "r1") (
        error_handler true
          (some "r1")
          (app (internal (some "password=hunter2")) (some "at db.ts:9")))
    × ((error_handler true (some "r1") (app secret (some "at db.ts:9"))).status
        ≡ secret.status_code)
    × ((error_handler true (some "r1") (app secret (some "at db.ts:9"))).body
        ≡ (if secret.expose then told (some "r1") secret else generic (some "r1")))
    × ((error_handler true (some "r1") (app secret none)).log.stack ≡ none)
error_handler_hides_example =
    error_handler_hides true (some "r1") crash (some "password=hunter2") (some "at db.ts:9") secret
      (app secret none)
