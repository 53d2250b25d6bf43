-- ===== src/WebhookReceiver.antt =====
-- The routes that receive webhooks (src/routes/webhooks.ts), from the raw body on. `parse` stands for
-- `JSON.parse` of the body's text, `is_date` for the texts that `new Date` reads; a buffer is given by
-- the text that it decodes to. The times that an answer names are not modelled.
pub mod Replay
mod Tests
use Prim.Native.String
use implement_offering_valid.Common.{
  ℕ, String, Bool, true, false, ◌&&◌, ◌||◌, not, Option, none, some, if◌then◌else◌, is_missing,
  is_empty, Dict, lookup, parse_int, ℤ, pos, ◌-ℤ◌, ltb_ℤ,
}
use implement_offering_valid.WebhookSignature.{
  Hmac, buffer, HeaderValue, one, many, first_of_value, or_blank, timestamp_header,
  verify_webhook_payload,
}
use implement_offering_valid.WebhookAuth.{Provided, rejected, provided}

-- A property of the body: undefined, a text, or another value with its truth.
pub data Field : Type 0 where
  undefined : Field
  text other_value : String → Field

-- What the JSON text gives: a value that is no object, or an object by the properties that are read.
pub data Body : Type 0 where
  no_object : Body
  object : (id event content timestamp : Field) → Body

-- `content` is the property `data`.
pub record WebhookEvent : Type 0 where
  pub id : String
  pub event : String
  pub content : Field
  pub timestamp : String

pub record WebhookProcessingResult : Type 0 where
  pub success : Bool
  pub event_id : Option String
  pub message : String

-- What becomes of the call of an event handler; a thrown value may be no `Error`.
pub data Handled : Type 0 where
  resolved : WebhookProcessingResult → Handled
  threw : Option String → Handled

unfoldable pub default_event_handler : WebhookEvent → Handled
default_event_handler e = resolved (record {
  success = true;
  event_id = some e.id;
  message = String.◌++◌ "Event " (String.◌++◌ e.event " processed successfully");
})

pub data EventProblem : Type 0 where
  not_an_object bad_id bad_event no_data bad_timestamp invalid_date : EventProblem

pub data Validation : Type 0 where
  invalid : EventProblem → Validation
  valid : WebhookEvent → Validation

-- `!value || typeof value !== 'string'`
abbrev pub is_no_text : Field → Bool
is_no_text undefined = true
is_no_text (text s) = is_empty s
is_no_text (other_value s) = true

abbrev pub text_of : Field → String
text_of undefined = ""
text_of (text s) = s
text_of (other_value s) = s

abbrev pub is_undefined : Field → Bool
is_undefined undefined = true
is_undefined (text s) = false
is_undefined (other_value s) = false

unfoldable pub validate_webhook_event : (String → Bool) → Body → Validation
validate_webhook_event is_date no_object = invalid not_an_object
validate_webhook_event is_date (object id event content timestamp) =
    if is_no_text id
    then invalid bad_id
    else if is_no_text event
    then invalid bad_event
    else if is_undefined content
    then invalid no_data
    else if is_no_text timestamp
    then invalid bad_timestamp
    else if not (is_date (text_of timestamp))
    then invalid invalid_date
    else valid (record {
      id = text_of id;
      event = text_of event;
      content = content;
      timestamp = text_of timestamp;
    })

pub data Reply : Type 0 where
  missing_endpoint provider_failed unknown_endpoint : Reply
  missing_signature verification_failed : Reply
  missing_timestamp invalid_timestamp timestamp_expired : Reply
  invalid_json : Reply
  invalid_event : EventProblem → Reply
  processed : (event_id message : String) → Reply
  failed : (event_id message : String) → Reply
  crashed : (message : Option String) → Reply

unfoldable pub status : Reply → ℕ
status missing_endpoint = 400
status provider_failed = 500
status unknown_endpoint = 404
status missing_signature = 401
status verification_failed = 403
status missing_timestamp = 403
status invalid_timestamp = 403
status timestamp_expired = 403
status invalid_json = 400
status (invalid_event p) = 400
status (processed id m) = 200
status (failed id m) = 422
status (crashed m) = 500

-- `result.eventId || event.id`
abbrev id_of : Option String → String → String
id_of none id = id
id_of (some s) id = if is_empty s then id else s

abbrev answer : (Option String → Option String) → WebhookEvent → Handled → Reply
answer told e (threw m) = crashed (told m)
answer told e (resolved r) =
    if r.success then processed (id_of r.event_id e.id) r.message else failed e.id r.message

-- The second handler of a route: `told` is what the answer says of a thrown error.
unfoldable pub process :
    (Option String → Option String) → (String → Bool) → (WebhookEvent → Handled) → Body → Reply
process told is_date handler body = elim (validate_webhook_event is_date body) [
  | invalid p ↦ invalid_event p
  | valid e ↦ answer told e (handler e)
]

-- `error instanceof Error ? error.message : 'Unknown error'`
abbrev message_of : Option String → Option String
message_of none = some "Unknown error"
message_of (some m) = some m

abbrev no_message : Option String → Option String
no_message m = none

pub record Config : Type 0 where
  pub require_timestamp : Bool
  pub max_age_ms : ℕ

abbrev pub signature_of : Dict HeaderValue → Option HeaderValue
signature_of headers = lookup "x-revora-signature" headers

-- `!signature`: a list of headers is an object, and so is truthy.
abbrev pub is_unsigned : Option HeaderValue → Bool
is_unsigned none = true
is_unsigned (some (one s)) = is_empty s
is_unsigned (some (many ss)) = false

abbrev pub signature_text : Option HeaderValue → String
signature_text none = ""
signature_text (some v) = or_blank (first_of_value v)

-- `age < 0 || age > maxAgeMs`
abbrev pub is_expired : ℕ → ℕ → ℤ → Bool
is_expired now max_age t = ltb_ℤ (pos now -ℤ t) (pos 0) || ltb_ℤ (pos max_age) (pos now -ℤ t)

-- The timestamp validation, then `next`.
unfoldable pub check_age : Config → ℕ → Dict HeaderValue → Reply → Reply
check_age c now headers next =
    if not c.require_timestamp
    then next
    else let value = timestamp_header headers in
      if is_missing value then missing_timestamp else elim (parse_int (or_blank value)) [
        | none ↦ invalid_timestamp
        | some t ↦ if is_expired now c.max_age_ms t then timestamp_expired else next
      ]

abbrev pub when_parsed : Option Body → (Body → Reply) → Reply
when_parsed none next = invalid_json
when_parsed (some body) next = next body

module _ (hmac : Hmac) (parse : String → Option Body) (is_date : String → Bool) where
  abbrev pub parse_and : String → (Body → Reply) → Reply
  parse_and payload next = when_parsed (parse payload) next

  -- `POST /` of `createWebhookRouter`.
  unfoldable pub receive :
      String → Config → (WebhookEvent → Handled) → ℕ → Dict HeaderValue → String → Reply
  receive secret c handler now headers payload =
      let signature = signature_of headers in
      if is_unsigned signature
      then missing_signature
      else if not
          (verify_webhook_payload hmac (some secret) (buffer payload) (signature_text signature))
      then verification_failed
      else check_age c now headers (parse_and payload (process message_of is_date handler))

  -- The handler in use: the one of the configuration, with the endpoint's id.
  abbrev handler_for : Option (WebhookEvent → String → Handled) → String → WebhookEvent → Handled
  handler_for none endpoint_id e = default_event_handler e
  handler_for (some handler) endpoint_id e = handler e endpoint_id

  abbrev with_secret :
      Option (WebhookEvent → String → Handled)
      → String
      → Option String
      → Dict HeaderValue
      → String
      → Reply
  with_secret handler endpoint_id secret headers payload =
      let signature = signature_of headers in
      if is_missing secret
      then unknown_endpoint
      else if is_unsigned signature
      then missing_signature
      else if not (verify_webhook_payload hmac secret (buffer payload) (signature_text signature))
      then verification_failed
      else parse_and payload (process no_message is_date (handler_for handler endpoint_id))

  -- `POST /` of `createMultiTenantWebhookRouter`; of its configuration, it reads `requireTimestamp`
  -- and `maxAgeMs` and uses neither.
  unfoldable pub receive_for_endpoint :
      (String → Provided)
      → Config
      → Option (WebhookEvent → String → Handled)
      → ℕ
      → Option String
      → Dict HeaderValue
      → String
      → Reply
  receive_for_endpoint provider c handler now endpoint_id headers payload =
      if is_missing endpoint_id then missing_endpoint else elim (provider (or_blank endpoint_id)) [
        | rejected ↦ provider_failed
        | provided secret ↦ with_secret handler (or_blank endpoint_id) secret headers payload
      ]
