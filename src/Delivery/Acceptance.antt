-- ===== src/Delivery/Acceptance.antt =====
-- What the webhook middleware of this repository makes of a webhook that it delivers.
use Prim.Native.String.{len}
use implement_offering_valid.Common.{
  ℕ, ◌≤◌, String, ◌≡◌, refl, Bool, true, false, none, some, arith, is_empty, if◌then◌else◌, lookup,
  to_lower, ltb, Bool-cases, inl, inr,
}
use implement_offering_valid.WebhookSignature.{
  Hmac, Config, string, accepted, refused, sign_webhook_payload, find_signature, check_timestamp,
  timestamp_missing, code,
}
use implement_offering_valid.WebhookSignature.Authenticity.{
  verify_webhook_payload_iff, sign-ne-empty,
}
use implement_offering_valid.WebhookAuth.{raw, webhook_auth, passed, denied, default_error_handler}
use implement_offering_valid.Delivery.{sign_payload, request_headers}

same_signature :
    (hmac : Hmac) (secret body : String)
    → sign_payload hmac secret body ≡ sign_webhook_payload hmac secret (string body)
unfolding sign_payload sign_webhook_payload
same_signature hmac secret body = refl

signature_found :
    (hmac : Hmac) (secret event body name : String)
    → to_lower name ≡ "x-revora-signature"
    → find_signature name (request_headers hmac secret event body)
      ≡ some (sign_payload hmac secret body)
unfolding find_signature request_headers lookup
signature_found hmac secret event body name n = rw (find_signature, n) refl

no_timestamp_sent :
    (hmac : Hmac) (secret event body : String) (required : Bool) (age now : ℕ)
    → check_timestamp required age now (request_headers hmac secret event body)
      ≡ (if required then refused timestamp_missing else accepted none)
unfolding check_timestamp request_headers lookup
no_timestamp_sent hmac secret event body true age now = refl
no_timestamp_sent hmac secret event body false age now = refl

-- A delivered webhook passes `webhookAuth` at a receiver that has the endpoint's secret and looks at
-- the usual header, when its body is not empty and within the limit, and no timestamp is required;
-- where one is required, it is refused with 403, since the service sends no timestamp.
pub webhook_auth-request :
    (hmac : Hmac) (c : Config) (secret event body : String) (now : ℕ)
    → c.secret ≡ some secret
    → to_lower c.header_name ≡ "x-revora-signature"
    → is_empty body ≡ false
    → len body ≤ c.max_payload_size
    → webhook_auth hmac c (raw body) (request_headers hmac secret event body) now
      ≡ (if c.require_timestamp then denied 403 timestamp_missing else passed none)
unfolding webhook_auth default_error_handler code
webhook_auth-request hmac c secret event body now e n b l =
    let found = signature_found hmac secret event body c.header_name n in
    let s = sign_payload hmac secret body in
    let valid =
      (verify_webhook_payload_iff hmac (some secret) (string body) s).1
        (b, (secret, refl, same_signature hmac secret body)) in
    let stamp = no_timestamp_sent hmac secret event body c.require_timestamp c.max_age_ms now in
    let small : ltb c.max_payload_size (len body) ≡ false = ground arith in
    let there : is_empty s ≡ false =
      rw (same_signature hmac secret body) (sign-ne-empty hmac secret (string body)) in
    elim (Bool-cases c.require_timestamp) [
      | inl r ↦ rw (small, found, there, e, valid, stamp, r) refl
      | inr r ↦ rw (small, found, there, e, valid, stamp, r) refl
    ]
