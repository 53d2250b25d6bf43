-- ===== src/WebhookSignature.antt =====
-- Webhook signatures (src/lib/webhookSignature.ts). Node's HMAC is the parameter `hmac`: the hex
-- digest for a secret and a payload. A buffer is given by the text that it decodes to.
pub mod Authenticity
pub mod Freshness
mod Tests
use Prim.Native.String
use Prim.Native.String.{len}
use text.Mathlib.Text.{starts_with}
use implement_offering_valid.Common.{
  ℕ, ◌-◌, ◌<◌, String, Bool, true, false, Option, none, some, List, [], ◌∷◌, ltb, leb, ◌==◌, ◌||◌,
  ◌&&◌, not, if◌then◌else◌, str_eq, is_missing, is_empty, Dict, lookup, to_lower, utf16_length,
  parse_int, ℤ, pos, pos_part, neg_part, ◌-ℤ◌, ltb_ℤ, leb_ℤ,
}

pub data Payload : Type 0 where
  string buffer : String → Payload

abbrev pub content : Payload → String
content (string s) = s
content (buffer s) = s

-- `!payload`: an empty buffer is an object, and so is truthy.
abbrev pub is_falsy : Payload → Bool
is_falsy (string s) = is_empty s
is_falsy (buffer s) = false

pub data HeaderValue : Type 0 where
  one : String → HeaderValue
  many : List String → HeaderValue

-- The codes of `WebhookSignatureError`.
pub data ErrorCode : Type 0 where
  missing_signature invalid_format verification_failed : ErrorCode

-- The errors that are raised, by what they report. The wording is not modelled: two messages for
-- a timestamp outside the window differ only in that one names the age allowed.
pub data WebhookError : Type 0 where
  body_required endpoint_required secret_unavailable endpoint_inactive : WebhookError
  signature_missing signature_malformed signature_failed : WebhookError
  timestamp_missing timestamp_malformed timestamp_outside : WebhookError
  too_large : ℕ → WebhookError
  header_missing : String → WebhookError

unfoldable pub code : WebhookError → ErrorCode
code body_required = missing_signature
code endpoint_required = invalid_format
code secret_unavailable = verification_failed
code endpoint_inactive = verification_failed
code signature_missing = missing_signature
code signature_malformed = invalid_format
code signature_failed = verification_failed
code timestamp_missing = invalid_format
code timestamp_malformed = invalid_format
code (too_large n) = invalid_format
code timestamp_outside = verification_failed
code (header_missing h) = missing_signature

abbrev pub Hmac : Type 0
Hmac = String → String → String

unfoldable pub sign_webhook_payload : Hmac → String → Payload → String
sign_webhook_payload hmac secret p = String.◌++◌ "sha256=" (hmac secret (content p))

-- `timingSafeEqual` on the bytes: it throws where the numbers of bytes differ.
abbrev timing_safe_equal : String → String → Option Bool
timing_safe_equal a b = if len a == len b then some (str_eq a b) else none

-- The secret may be undefined; `catch` turns a throw into false.
unfoldable pub verify_webhook_payload : Hmac → Option String → Payload → String → Bool
verify_webhook_payload hmac none p signature = false
verify_webhook_payload hmac (some secret) p signature =
    if is_falsy p || is_empty signature
    then false
    else if not (starts_with signature "sha256=")
    then false
    else let expected = sign_webhook_payload hmac secret p in
      if not (utf16_length signature == utf16_length expected)
      then false
      else elim (timing_safe_equal signature expected) [ none ↦ false | some same ↦ same ]

-- The first text of a header, where it has one.
abbrev pub first_of_value : HeaderValue → Option String
first_of_value (one s) = some s
first_of_value (many []) = none
first_of_value (many (s ∷ ss)) = some s

-- `headers[name] ?? fallback`
abbrev or_header : Option HeaderValue → Option HeaderValue → Option HeaderValue
or_header none b = b
or_header (some a) b = some a

unfoldable pub extract_from : List String → Dict HeaderValue → Option String
extract_from [] headers = none
extract_from (name ∷ names) headers =
    let found = or_header (lookup name headers) (lookup (to_lower name) headers) in
    elim (found) [
      | none ↦ extract_from names headers
      | some v ↦ elim (first_of_value v) [ none ↦ extract_from names headers | some s ↦ some s ]
    ]

abbrev header_names : List String
header_names =
    "x-revora-signature" ∷ "x-webhook-signature" ∷ "x-signature" ∷ "x-hub-signature-256" ∷ []

unfoldable pub extract_signature_from_headers : Dict HeaderValue → Option String
extract_signature_from_headers headers = extract_from header_names headers

-- `none` where the call returns.
unfoldable pub assert_valid_webhook_signature :
    Hmac → Option String → Payload → Option String → Option WebhookError
assert_valid_webhook_signature hmac secret p none = some signature_missing
assert_valid_webhook_signature hmac secret p (some signature) =
    if is_empty signature
    then some signature_missing
    else if not (starts_with signature "sha256=")
    then some signature_malformed
    else if not (verify_webhook_payload hmac secret p signature)
    then some signature_failed
    else none

pub record Config : Type 0 where
  pub secret : Option String
  pub header_name : String
  pub max_payload_size : ℕ
  pub require_timestamp : Bool
  pub max_age_ms : ℕ

-- `new Date(t)` is invalid, and its time `NaN`, beyond 100,000,000 days from 1970.
abbrev pub is_valid_date : ℤ → Bool
is_valid_date t = leb (pos_part t) 8_640_000_000_000_000 && leb (neg_part t) 8_640_000_000_000_000

-- `age < 0 || age > maxAgeMs`: with an invalid date the age is `NaN`, and both tests are false.
unfoldable pub is_outside : ℕ → ℕ → ℤ → Bool
is_outside now max_age t =
    if is_valid_date t
    then ltb_ℤ (pos now -ℤ t) (pos 0) || ltb_ℤ (pos max_age) (pos now -ℤ t)
    else false

pub data Checked (A : Type 0) : Type 0 where
  accepted : A → Checked A
  refused : WebhookError → Checked A

abbrev pub timestamp_header : Dict HeaderValue → Option String
timestamp_header headers =
    elim (or_header (lookup "x-webhook-timestamp" headers) (lookup "x-revora-timestamp" headers)) [
      | none ↦ none
      | some v ↦ first_of_value v
    ]

abbrev pub or_blank : Option String → String
or_blank none = ""
or_blank (some s) = s

-- The replay protection: the timestamp, where one is required.
unfoldable pub check_timestamp : Bool → ℕ → ℕ → Dict HeaderValue → Checked (Option ℤ)
check_timestamp false max_age now headers = accepted none
check_timestamp true max_age now headers =
    let value = timestamp_header headers in
    if is_missing value then refused timestamp_missing else elim (parse_int (or_blank value)) [
      | none ↦ refused timestamp_malformed
      | some t ↦ if is_outside now max_age t then refused timestamp_outside else accepted (some t)
    ]

-- The signature in use: of the configured header, or of the usual ones.
unfoldable pub find_signature : String → Dict HeaderValue → Option String
find_signature header_name headers = elim (lookup (to_lower header_name) headers) [
  | none ↦ extract_signature_from_headers headers
  | some v ↦ first_of_value v
]

-- `Date.now()` is `now`.
unfoldable pub verify_webhook : Hmac → Config → Payload → Dict HeaderValue → ℕ → Checked (Option ℤ)
verify_webhook hmac c p headers now =
    if ltb c.max_payload_size (len (content p))
    then refused (too_large c.max_payload_size)
    else let signature = find_signature c.header_name headers in
      if is_missing signature
      then refused (header_missing c.header_name)
      else if not (verify_webhook_payload hmac c.secret p (or_blank signature))
      then refused signature_failed
      else check_timestamp c.require_timestamp c.max_age_ms now headers
