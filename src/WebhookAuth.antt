-- ===== src/WebhookAuth.antt =====
-- The webhook middlewares (src/middleware/webhookAuth.ts), with the default error handler.
-- A request is its body, its headers and its endpoint id. A buffer is given by the text that it
-- decodes to, a parsed body by its `JSON.stringify`.
pub mod Agreement
mod Tests
use Prim.Native.String.{len}
use implement_offering_valid.Common.{
  ℕ, String, Bool, true, false, not, Option, none, some, ltb, if◌then◌else◌, is_missing, is_empty,
  Dict, ℤ,
}
use implement_offering_valid.WebhookSignature.{
  Payload, string, buffer, HeaderValue, Hmac, ErrorCode, missing_signature, invalid_format,
  verification_failed, WebhookError, body_required, endpoint_required, secret_unavailable,
  endpoint_inactive, signature_failed, too_large, header_missing, code, Config, Checked, accepted,
  refused, verify_webhook_payload, find_signature, check_timestamp, verify_webhook, or_blank,
}

-- `absent` stands for every falsy body but the empty string: undefined, null, 0, false.
pub data Body : Type 0 where
  absent : Body
  raw plain parsed : String → Body

abbrev pub is_falsy_body : Body → Bool
is_falsy_body absent = true
is_falsy_body (raw s) = false
is_falsy_body (plain s) = is_empty s
is_falsy_body (parsed s) = false

-- `payloadString`
abbrev pub body_text : Body → String
body_text absent = ""
body_text (raw s) = s
body_text (plain s) = s
body_text (parsed s) = s

abbrev body_payload : Body → Payload
body_payload absent = string ""
body_payload (raw s) = buffer s
body_payload (plain s) = string s
body_payload (parsed s) = string s

-- What a middleware does: `next()` with `req.webhook` set, or a response.
pub data Reply : Type 0 where
  passed : (timestamp : Option ℤ) → Reply
  denied : (status : ℕ) → WebhookError → Reply
  bad_request : Reply

abbrev pub status_of : ErrorCode → ℕ
status_of missing_signature = 401
status_of invalid_format = 403
status_of verification_failed = 403

unfoldable pub default_error_handler : WebhookError → Reply
unfolding code
default_error_handler e = denied (status_of (code e)) e

abbrev reply_of : Checked (Option ℤ) → Reply
reply_of (accepted t) = passed t
reply_of (refused e) = default_error_handler e

unfoldable pub webhook_auth : Hmac → Config → Body → Dict HeaderValue → ℕ → Reply
webhook_auth hmac c body headers now =
    if is_falsy_body body
    then default_error_handler body_required
    else if ltb c.max_payload_size (len (body_text body))
    then default_error_handler (too_large c.max_payload_size)
    else let signature = find_signature c.header_name headers in
      if is_missing signature
      then default_error_handler (header_missing c.header_name)
      else if not
          (verify_webhook_payload hmac c.secret (string (body_text body)) (or_blank signature))
      then default_error_handler signature_failed
      else reply_of (check_timestamp c.require_timestamp c.max_age_ms now headers)

unfoldable pub webhook_verify : Hmac → Config → Body → Dict HeaderValue → ℕ → Reply
webhook_verify hmac c body headers now =
    if is_falsy_body body
    then bad_request
    else reply_of (verify_webhook hmac c (body_payload body) headers now)

-- `await secretProvider(id)`: it rejects, or gives a secret that may be null.
pub data Provided : Type 0 where
  rejected : Provided
  provided : Option String → Provided

-- The part after the secret is known.
unfoldable pub auth_with_secret :
    Hmac → Config → Option String → Body → Dict HeaderValue → ℕ → Reply
auth_with_secret hmac c secret body headers now =
    if is_missing secret
    then default_error_handler endpoint_inactive
    else if is_falsy_body body
    then default_error_handler body_required
    else if ltb c.max_payload_size (len (body_text body))
    then default_error_handler (too_large c.max_payload_size)
    else let signature = find_signature c.header_name headers in
      if is_missing signature
      then default_error_handler (header_missing c.header_name)
      else if not
          (verify_webhook_payload hmac secret (string (body_text body)) (or_blank signature))
      then default_error_handler signature_failed
      else reply_of (check_timestamp c.require_timestamp c.max_age_ms now headers)

-- The secret of `c` is not used: it comes from the provider.
unfoldable pub webhook_auth_with_provider :
    Hmac → (String → Provided) → Config → Option String → Body → Dict HeaderValue → ℕ → Reply
webhook_auth_with_provider hmac provider c endpoint_id body headers now =
    if is_missing endpoint_id
    then default_error_handler endpoint_required
    else elim (provider (or_blank endpoint_id)) [
      | rejected ↦ default_error_handler secret_unavailable
      | provided secret ↦ auth_with_secret hmac c secret body headers now
    ]
