-- ===== src/WebhookReceiver/Replay.antt =====
-- Which requests reach an event handler.
use implement_offering_valid.Common.{
  ℕ, String, ◌≡◌, refl, ◌⊎◌, Bool, true, false, ◌&&◌, ◌||◌, not, Option, none, some, arith,
  is_missing, is_empty, Dict, parse_int, Option-cases, Bool-cases, inl, inr,
}
use implement_offering_valid.WebhookSignature.{
  Hmac, buffer, HeaderValue, or_blank, timestamp_header, verify_webhook_payload,
}
use implement_offering_valid.WebhookAuth.{Provided, rejected, provided}
use implement_offering_valid.WebhookReceiver.{
  Body, WebhookEvent, Handled, resolved, threw, EventProblem, Validation, invalid, valid,
  validate_webhook_event, Reply, missing_endpoint, provider_failed, unknown_endpoint,
  missing_signature, verification_failed, missing_timestamp, invalid_timestamp, timestamp_expired,
  invalid_json, invalid_event, processed, failed, crashed, process, answer, Config, signature_of,
  is_unsigned, signature_text, parse_and, when_parsed, with_secret, handler_for, message_of,
  no_message, is_expired, check_age, receive, receive_for_endpoint,
}

-- Whether a reply is one that follows the call of the event handler.
unfoldable pub is_handled : Reply → Bool
is_handled missing_endpoint = false
is_handled provider_failed = false
is_handled unknown_endpoint = false
is_handled missing_signature = false
is_handled verification_failed = false
is_handled missing_timestamp = false
is_handled invalid_timestamp = false
is_handled timestamp_expired = false
is_handled invalid_json = false
is_handled (invalid_event p) = false
is_handled (processed id m) = true
is_handled (failed id m) = true
is_handled (crashed m) = true

abbrev pub is_valid : Validation → Bool
is_valid (invalid p) = false
is_valid (valid e) = true

abbrev pub is_event_body : (String → Bool) → Option Body → Bool
is_event_body is_date none = false
is_event_body is_date (some body) = is_valid (validate_webhook_event is_date body)

-- The text is the JSON of an event.
abbrev pub is_event : (String → Option Body) → (String → Bool) → String → Bool
is_event parse is_date payload = is_event_body is_date (parse payload)

-- The request has a signature, and it is the one of the payload under the secret.
abbrev pub is_signed : Hmac → String → Dict HeaderValue → String → Bool
is_signed hmac secret headers payload =
    not (is_unsigned (signature_of headers))
    && verify_webhook_payload hmac (some secret) (buffer payload)
        (signature_text (signature_of headers))

-- The secret that the provider has for an endpoint signs the request.
abbrev pub is_signed_for :
    Hmac → (String → Provided) → Option String → Dict HeaderValue → String → Bool
is_signed_for hmac provider none headers payload = false
is_signed_for hmac provider (some id) headers payload = not (is_empty id) && elim (provider id) [
  | rejected ↦ false
  | provided secret ↦ not (is_missing secret) && is_signed hmac (or_blank secret) headers payload
]

-- The header names a time within the window.
abbrev pub is_fresh : ℕ → ℕ → Dict HeaderValue → Bool
is_fresh now max_age headers =
    not (is_missing (timestamp_header headers))
    && elim (parse_int (or_blank (timestamp_header headers))) [
      | none ↦ false
      | some t ↦ not (is_expired now max_age t)
    ]

Provided-cases :
    (p : Provided) → (p ≡ rejected) ⊎ ((secret : Option String) × (p ≡ provided secret))
Provided-cases rejected = inl refl
Provided-cases (provided secret) = inr (secret, refl)

Validation-cases :
    (v : Validation) → ((p : EventProblem) × (v ≡ invalid p)) ⊎ ((e : WebhookEvent) × (v ≡ valid e))
Validation-cases (invalid p) = inl (p, refl)
Validation-cases (valid e) = inr (e, refl)

answer_handled :
    (told : Option String → Option String) (e : WebhookEvent) (h : Handled)
    → is_handled (answer told e h) ≡ true
unfolding is_handled
answer_handled told e (threw m) = refl
answer_handled told e (resolved r) = ground arith

process_handled :
    (told : Option String → Option String) (is_date : String → Bool)
    (handler : WebhookEvent → Handled) (body : Body)
    → is_handled (process told is_date handler body)
      ≡ is_valid (validate_webhook_event is_date body)
unfolding process is_handled
process_handled told is_date handler body =
    elim (Validation-cases (validate_webhook_event is_date body)) [
      | inl (p, e) ↦ rw (process, e) refl
      | inr (v, e) ↦ rw (process, e) (answer_handled told v (handler v))
    ]

when_parsed_handled :
    (parsed : Option Body) (is_date : String → Bool) (told : Option String → Option String)
    (handler : WebhookEvent → Handled)
    → is_handled (when_parsed parsed (process told is_date handler)) ≡ is_event_body is_date parsed
unfolding is_handled
when_parsed_handled none is_date told handler = refl
when_parsed_handled (some body) is_date told handler = process_handled told is_date handler body

check_age_handled :
    (c : Config) (now : ℕ) (headers : Dict HeaderValue) (next : Reply)
    → is_handled (check_age c now headers next)
      ≡ ((not c.require_timestamp || is_fresh now c.max_age_ms headers) && is_handled next)
unfolding check_age is_handled
check_age_handled c now headers next =
    elim (Option-cases (parse_int (or_blank (timestamp_header headers)))) [
      | inl e ↦ rw (check_age, e) (ground arith)
      | inr (t, e) ↦ rw (check_age, e) (ground arith)
    ]

module _ (hmac : Hmac) (parse : String → Option Body) (is_date : String → Bool) where
  parse_and_handled :
      (payload : String) (told : Option String → Option String) (handler : WebhookEvent → Handled)
      → is_handled (parse_and hmac parse is_date payload (process told is_date handler))
        ≡ is_event parse is_date payload
  parse_and_handled payload told handler = when_parsed_handled (parse payload) is_date told handler

  receive_handled :
      (secret : String) (c : Config) (handler : WebhookEvent → Handled) (now : ℕ)
      (headers : Dict HeaderValue) (payload : String)
      → is_handled (receive hmac parse is_date secret c handler now headers payload) ≡ (
          is_signed hmac secret headers payload
          && ((not c.require_timestamp || is_fresh now c.max_age_ms headers)
              && is_event parse is_date payload))
  unfolding receive is_handled
  receive_handled secret c handler now headers payload =
      let v =
        verify_webhook_payload hmac (some secret) (buffer payload)
          (signature_text (signature_of headers)) in
      elim (Bool-cases (is_unsigned (signature_of headers))) [
        | inl e ↦ rw (receive, e) refl
        | inr e ↦ elim (Bool-cases v) [
          | inl f ↦
              rw
                (
                  receive,
                  e,
                  f,
                  check_age_handled c now headers
                      (parse_and hmac parse is_date payload (process message_of is_date handler)),
                  parse_and_handled payload message_of handler,
                )
                refl
          | inr f ↦ rw (receive, e, f) refl
        ]
      ]

  with_secret_handled :
      (handler : Option (WebhookEvent → String → Handled)) (id : String) (secret : Option String)
      (headers : Dict HeaderValue) (payload : String)
      → is_handled (with_secret hmac parse is_date handler id secret headers payload) ≡ (
          not (is_missing secret)
          && is_signed hmac (or_blank secret) headers payload
          && is_event parse is_date payload)
  unfolding is_handled
  with_secret_handled handler id none headers payload = refl
  with_secret_handled handler id (some secret) headers payload =
      let v =
        verify_webhook_payload hmac (some secret) (buffer payload)
          (signature_text (signature_of headers)) in
      elim (Bool-cases (is_empty secret)) [
        | inl d ↦ rw d refl
        | inr d ↦ elim (Bool-cases (is_unsigned (signature_of headers))) [
          | inl e ↦ rw (d, e) refl
          | inr e ↦ elim (Bool-cases v) [
            | inl f ↦
                rw
                  (
                    d,
                    e,
                    f,
                    parse_and_handled payload no_message
                        (handler_for hmac parse is_date handler id),
                  )
                  refl
            | inr f ↦ rw (d, e, f) refl
          ]
        ]
      ]

  endpoint_handled :
      (provider : String → Provided) (c : Config)
      (handler : Option (WebhookEvent → String → Handled)) (now : ℕ) (endpoint_id : Option String)
      (headers : Dict HeaderValue) (payload : String)
      → is_handled (
          receive_for_endpoint hmac parse is_date provider c handler now endpoint_id headers
            payload)
        ≡ (is_signed_for hmac provider endpoint_id headers payload
            && is_event parse is_date payload)
  unfolding receive_for_endpoint is_handled
  endpoint_handled provider c handler now none headers payload = refl
  endpoint_handled provider c handler now (some id) headers payload =
      elim (Bool-cases (is_empty id)) [
        | inl d ↦ rw (receive_for_endpoint, d) refl
        | inr d ↦ elim (Provided-cases (provider id)) [
          | inl e ↦ rw (receive_for_endpoint, d, e) refl
          | inr (secret, e) ↦
              rw (receive_for_endpoint, d, e)
                (with_secret_handled handler id secret headers payload)
        ]
      ]

  -- The single receiver calls its handler exactly for a signed event whose timestamp, where one is
  -- required, is within the window. The receiver of several endpoints calls one exactly for an event
  -- that is signed under the secret, not empty, that the provider has for the endpoint: whatever the
  -- configuration requires, it looks at no timestamp, so that a request is handled again at any later
  -- time.
  pub handled_iff_signed :
      (secret : String) (provider : String → Provided) (c : Config)
      (handler : WebhookEvent → Handled)
      (endpoint_handler : Option (WebhookEvent → String → Handled)) (now : ℕ)
      (endpoint_id : Option String) (headers : Dict HeaderValue) (payload : String)
      → (is_handled (receive hmac parse is_date secret c handler now headers payload) ≡ (
          is_signed hmac secret headers payload
          && ((not c.require_timestamp || is_fresh now c.max_age_ms headers)
              && is_event parse is_date payload)))
        × (is_handled (
              receive_for_endpoint hmac parse is_date provider c endpoint_handler now endpoint_id
                headers payload)
            ≡ (is_signed_for hmac provider endpoint_id headers payload
                && is_event parse is_date payload))
  unfolding receive receive_for_endpoint is_handled
  handled_iff_signed secret provider c handler endpoint_handler now endpoint_id headers payload = (
    receive_handled secret c handler now headers payload,
    endpoint_handled provider c endpoint_handler now endpoint_id headers payload,
  )
