-- ===== src/WebhookSignature/Authenticity.antt =====
-- What a payload that is accepted has been signed with.
use Prim.Native.String
use Prim.Native.String.{len}
use text.Mathlib.Text.{starts_with}
use text.Mathlib.TextEquality.{starts_with_iff}
use text.Mathlib.TextLemmas.{prefix-append}
use text.Mathlib.TextPositions.{eq_refl}
use mathlib.Core.Path.{subst}
use implement_offering_valid.Common.{
  ℕ, ◌≤◌, String, ◌≡◌, refl, ◌↔◌, inl, inr, true, false, Option, none, some, arith, eq_iff, ◌==◌,
  is_empty, Dict, utf16_length, Bool-cases, Option-cases, ℤ,
}
use implement_offering_valid.WebhookSignature.{
  Payload, content, is_falsy, HeaderValue, Hmac, sign_webhook_payload, verify_webhook_payload,
  Config, accepted, find_signature, check_timestamp, verify_webhook, assert_valid_webhook_signature,
}

starts-sign :
    (hmac : Hmac) (secret : String) (p : Payload)
    → starts_with (sign_webhook_payload hmac secret p) "sha256=" ≡ true
unfolding sign_webhook_payload
starts-sign hmac secret p =
    (starts_with_iff (String.◌++◌ "sha256=" (hmac secret (content p))) "sha256=").1
      (prefix-append "sha256=" (hmac secret (content p)))

pub sign-ne-empty :
    (hmac : Hmac) (secret : String) (p : Payload)
    → is_empty (sign_webhook_payload hmac secret p) ≡ false
sign-ne-empty hmac secret p =
    let s = sign_webhook_payload hmac secret p in
    elim (Bool-cases (is_empty s)) [
      | inl e ↦ absurd (
          cc (
            subst (λ z. starts_with z "sha256=" ≡ true) ((eq_iff s "").0 e)
              (starts-sign hmac secret p)))
      | inr e ↦ e
    ]

equal_to_itself : (n : ℕ) → (n == n) ≡ true
equal_to_itself n = ground arith

verify_of_signed :
    (hmac : Hmac) (secret : String) (p : Payload)
    → is_falsy p ≡ false
    → verify_webhook_payload hmac (some secret) p (sign_webhook_payload hmac secret p) ≡ true
unfolding verify_webhook_payload
verify_of_signed hmac secret p h =
    let s = sign_webhook_payload hmac secret p in
    rw
      (
        h,
        sign-ne-empty hmac secret p,
        starts-sign hmac secret p,
        equal_to_itself (utf16_length s),
        equal_to_itself (len s),
      )
      (eq_refl s)

signed_of_verify :
    (hmac : Hmac) (secret : Option String) (p : Payload) (s : String)
    → verify_webhook_payload hmac secret p s ≡ true
    → (is_falsy p ≡ false)
      × ((k : String) × (secret ≡ some k) × (s ≡ sign_webhook_payload hmac k p))
unfolding verify_webhook_payload
signed_of_verify hmac none p s h = absurd (cc)
signed_of_verify hmac (some k) p s h =
    let e = sign_webhook_payload hmac k p in (ground arith, (k, refl, ground (arith, eq_iff s e)))

-- A signature is verified exactly when a secret is given, the payload is not falsy, and the signature
-- is the text `sha256=` followed by the HMAC of the payload under that secret: no other text of the
-- right form or length gets through.
pub verify_webhook_payload_iff :
    (hmac : Hmac) (secret : Option String) (p : Payload) (s : String)
    → (verify_webhook_payload hmac secret p s ≡ true) ↔ (
        (is_falsy p ≡ false)
        × ((k : String) × (secret ≡ some k) × (s ≡ sign_webhook_payload hmac k p)))
verify_webhook_payload_iff hmac secret p s =
    (signed_of_verify hmac secret p s, λ h. rw (h.1.1, h.1.2) (verify_of_signed hmac h.1.0 p h.0))

-- `verifyWebhook` accepts a payload exactly when it is not falsy and no larger than the limit, the
-- signature in use is the HMAC signature of that payload under the configured secret, and the
-- timestamp check, if it is asked for, passes; the timestamp that it reports is the checked one.
pub verify_webhook_iff :
    (hmac : Hmac) (c : Config) (p : Payload) (headers : Dict HeaderValue) (now : ℕ) (t : Option ℤ)
    → (verify_webhook hmac c p headers now ≡ accepted t) ↔ (
        (len (content p) ≤ c.max_payload_size)
        × (is_falsy p ≡ false)
        × ((k : String) × (c.secret ≡ some k)
            × (find_signature c.header_name headers ≡ some (sign_webhook_payload hmac k p)))
        × (check_timestamp c.require_timestamp c.max_age_ms now headers ≡ accepted t))
unfolding verify_webhook
verify_webhook_iff hmac c p headers now t =
    elim (Option-cases (find_signature c.header_name headers)) [
      | inl e ↦ (λ h. absurd (ground arith), λ h. absurd (ground (arith, h.2.2)))
      | inr (s, e) ↦ (
        λ h.
            let signed = signed_of_verify hmac c.secret p s (ground arith) in
            (
              ground arith,
              signed.0,
              (signed.1.0, signed.1.1, ground (arith, signed.1.2)),
              ground arith,
            ),
        λ h.
            let signed : s ≡ sign_webhook_payload hmac h.2.0 p = ground (arith, h.2.2) in
            ground
              (arith, h, signed, sign-ne-empty hmac h.2.0 p, verify_of_signed hmac h.2.0 p h.1),
      )
    ]

-- The throwing check agrees with the Boolean one: it returns without an error exactly for a signature
-- that `verifyWebhookPayload` accepts, whatever the secret and the payload.
pub assert_valid_iff :
    (hmac : Hmac) (secret : Option String) (p : Payload) (s : String)
    → (assert_valid_webhook_signature hmac secret p (some s) ≡ none)
      ↔ (verify_webhook_payload hmac secret p s ≡ true)
unfolding assert_valid_webhook_signature
assert_valid_iff hmac secret p s = (
  λ h. ground arith,
  λ h.
      let signed = signed_of_verify hmac secret p s h in
      ground (arith, h, signed.1.2, sign-ne-empty hmac signed.1.0 p, starts-sign hmac signed.1.0 p),
)
