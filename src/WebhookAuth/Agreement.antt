-- ===== src/WebhookAuth/Agreement.antt =====
-- Which requests the middlewares of src/middleware/webhookAuth.ts let through, and where they differ.
use Prim.Native.String.{len}
use implement_offering_valid.Common.{
  ℕ, ◌≤◌, String, ◌≡◌, refl, ◌↔◌, ◌⊎◌, false, Option, none, some, arith, is_empty, Dict, ℤ,
  Option-cases, inl, inr,
}
use implement_offering_valid.WebhookSignature.{
  Payload, string, buffer, HeaderValue, Hmac, Config, accepted, sign_webhook_payload,
  verify_webhook_payload, find_signature, check_timestamp, verify_webhook, or_blank,
  signature_failed,
}
use implement_offering_valid.WebhookSignature.Authenticity.{
  verify_webhook_iff, sign-ne-empty, verify_webhook_payload_iff,
}
use implement_offering_valid.WebhookAuth.{
  Body, absent, raw, plain, parsed, is_falsy_body, body_text, passed, denied, default_error_handler,
  webhook_auth, webhook_verify, Provided, rejected, provided, auth_with_secret,
  webhook_auth_with_provider,
}

verify-buffer :
    (hmac : Hmac) (secret : Option String) (s signature : String)
    → is_empty s ≡ false
    → verify_webhook_payload hmac secret (string s) signature
      ≡ verify_webhook_payload hmac secret (buffer s) signature
unfolding verify_webhook_payload sign_webhook_payload
verify-buffer hmac none s signature h = refl
verify-buffer hmac (some k) s signature h = rw h refl

empty_text_fails :
    (hmac : Hmac) (secret : Option String) (signature : String)
    → verify_webhook_payload hmac secret (string "") signature ≡ false
unfolding verify_webhook_payload
empty_text_fails hmac none signature = refl
empty_text_fails hmac (some k) signature = refl

-- For a text, a parsed body, or a buffer that is not empty, `webhookAuth` and `webhookVerify` give the
-- same answer to every request: both pass it with the same timestamp, or both refuse it with the same
-- status and the same error, up to the wording of its message.
pub webhook_auth-eq-verify :
    (hmac : Hmac) (c : Config) (body : Body) (headers : Dict HeaderValue) (now : ℕ)
    → is_falsy_body body ≡ false
    → is_empty (body_text body) ≡ false
    → webhook_auth hmac c body headers now ≡ webhook_verify hmac c body headers now
unfolding webhook_auth webhook_verify verify_webhook
webhook_auth-eq-verify hmac c absent headers now f h = absurd (cc)
webhook_auth-eq-verify hmac c (plain s) headers now f h = ground arith
webhook_auth-eq-verify hmac c (parsed s) headers now f h = ground arith
webhook_auth-eq-verify hmac c (raw s) headers now f h =
    ground
      (arith, h, verify-buffer hmac c.secret s (or_blank (find_signature c.header_name headers)) h)

-- An empty buffer is where they differ: `webhookVerify` lets through one with the signature of the
-- empty text under the configured secret, where no timestamp is asked for, and `webhookAuth` answers
-- 403 to the same request.
pub empty_buffer_differs :
    (hmac : Hmac) (c : Config) (k : String) (headers : Dict HeaderValue) (now : ℕ)
    → c.secret ≡ some k
    → c.require_timestamp ≡ false
    → find_signature c.header_name headers ≡ some (sign_webhook_payload hmac k (buffer ""))
    → (webhook_verify hmac c (raw "") headers now ≡ passed none)
      × (webhook_auth hmac c (raw "") headers now ≡ denied 403 signature_failed)
unfolding webhook_verify webhook_auth default_error_handler check_timestamp
empty_buffer_differs hmac c k headers now e r f =
    let ok =
      (verify_webhook_iff hmac c (buffer "") headers now none).1
        (omega arith, refl, (k, e, f), ground (arith, r)) in
    let no = empty_text_fails hmac c.secret (sign_webhook_payload hmac k (buffer "")) in
    (ground (arith, ok), ground (arith, f, no, sign-ne-empty hmac k (buffer "")))

nonempty_is_truthy : (body : Body) → is_empty (body_text body) ≡ false → is_falsy_body body ≡ false
nonempty_is_truthy absent h = absurd (cc)
nonempty_is_truthy (raw s) h = refl
nonempty_is_truthy (plain s) h = h
nonempty_is_truthy (parsed s) h = refl

-- A request gets past `webhookAuth` exactly when its body is not empty and no larger than the limit,
-- its signature header is the HMAC signature of its body under the secret, and the timestamp check
-- passes; `req.webhook` then carries the checked timestamp.
pub webhook_auth_iff :
    (hmac : Hmac) (c : Config) (k : String) (body : Body) (headers : Dict HeaderValue) (now : ℕ)
    (t : Option ℤ)
    → c.secret ≡ some k
    → (webhook_auth hmac c body headers now ≡ passed t) ↔ (
        (is_empty (body_text body) ≡ false)
        × (len (body_text body) ≤ c.max_payload_size)
        × (find_signature c.header_name headers
            ≡ some (sign_webhook_payload hmac k (string (body_text body))))
        × (check_timestamp c.require_timestamp c.max_age_ms now headers ≡ accepted t))
unfolding webhook_auth default_error_handler
webhook_auth_iff hmac c k body headers now t e =
    elim (Option-cases (find_signature c.header_name headers)) [
      | inl f ↦ (λ h. absurd (ground arith), λ h. absurd (ground (arith, h.2)))
      | inr (s, f) ↦
          let p : Payload = string (body_text body) in
          let check = verify_webhook_payload_iff hmac c.secret p s in
          (
            λ h.
                let signed = check.0 (ground arith) in
                let same : signed.1.0 ≡ k = ground (arith, signed.1.1) in
                (signed.0, ground arith, rw (f, signed.1.2, same) refl, ground arith),
            λ h.
                let same : s ≡ sign_webhook_payload hmac k p = ground (arith, h.2) in
                let ok = check.1 (h.0, (k, e, same)) in
                ground (arith, h, same, ok, nonempty_is_truthy body h.0, sign-ne-empty hmac k p),
          )
    ]

Provided-cases :
    (p : Provided) → (p ≡ rejected) ⊎ (p ≡ provided none) ⊎ ((k : String) × (p ≡ provided (some k)))
Provided-cases rejected = inl refl
Provided-cases (provided none) = inr (inl refl)
Provided-cases (provided (some k)) = inr (inr (k, refl))

-- With a secret provider, a request for an endpoint gets past exactly when the provider gives a secret
-- that is not empty and `webhookAuth` configured with that secret lets the request through.
pub webhook_auth_with_provider_iff :
    (hmac : Hmac) (provider : String → Provided) (c : Config) (id : String) (body : Body)
    (headers : Dict HeaderValue) (now : ℕ) (t : Option ℤ)
    → (webhook_auth_with_provider hmac provider c (some id) body headers now ≡ passed t) ↔ (
        (is_empty id ≡ false)
        × ((k : String) × (provider id ≡ provided (some k))
            × (is_empty k ≡ false)
            × (webhook_auth hmac (record c { secret = some k }) body headers now ≡ passed t)))
unfolding webhook_auth webhook_auth_with_provider auth_with_secret default_error_handler
webhook_auth_with_provider_iff hmac provider c id body headers now t =
    elim (Provided-cases (provider id)) [
      | inl e ↦ (λ h. absurd (ground arith), λ h. absurd (ground (arith, h.1.1)))
      | inr (inl e) ↦ (λ h. absurd (ground arith), λ h. absurd (ground (arith, h.1.1)))
      | inr (inr (k, e)) ↦ (
        λ h. (ground arith, (k, e, ground arith, ground arith)),
        λ h. rw (h.0, h.1.1, h.1.2) h.1.3,
      )
    ]
