-- ===== src/Delivery/Tests.antt =====
-- Deliveries over concrete networks, under a keyed function in place of Node's HMAC.
use Prim.Native.String
use implement_offering_valid.Common.{
  ℕ, zero, suc, ◌≡◌, refl, true, false, none, some, [], ◌∷◌, arith, map, str_eq, if◌then◌else◌,
  to_lower,
}
use implement_offering_valid.WebhookSignature.{Hmac, Config}
use implement_offering_valid.WebhookAuth.{raw, webhook_auth, passed}
use implement_offering_valid.Delivery.{
  Fetched, response, thrown, non_retryable, retries_exceeded, WebhookEndpointRecord, Options,
  request_headers, deliver, deliver_from, emit,
}
use implement_offering_valid.Delivery.Attempts.{Settles, deliver-Settles}
use implement_offering_valid.Delivery.Acceptance.{webhook_auth-request}

abbrev keyed : Hmac
keyed secret content = String.◌++◌ secret content

abbrev endpoint : WebhookEndpointRecord
endpoint = record { id = "e1"; url = "https://x.org"; secret = "k" }

abbrev thrice : Options
thrice = record { max_retries = 3; initial_delay_ms = 1000 }

-- The network fails, then is busy, then answers.
abbrev flaky : ℕ → Fetched
flaky zero = thrown "aborted"
flaky (suc zero) = thrown "aborted"
flaky (suc (suc zero)) = response 429 false
flaky (suc (suc (suc n))) = response 200 true

third_attempt_succeeds : deliver thrice flaky endpoint ≡ (
  record {
    endpoint_id = "e1";
    url = "https://x.org";
    success = true;
    attempts = 3;
    status_code = some 200;
    error = none;
  },
  1000 ∷ 2000 ∷ [],
)
unfolding deliver deliver_from
third_attempt_succeeds = refl

gone_is_not_retried : deliver thrice (λ attempt. response 410 false) endpoint ≡ (
  record {
    endpoint_id = "e1";
    url = "https://x.org";
    success = false;
    attempts = 1;
    status_code = some 410;
    error = some (non_retryable 410);
  },
  [],
)
unfolding deliver deliver_from
gone_is_not_retried = refl

no_attempt_allowed :
    (deliver (record thrice { max_retries = 0 }) flaky endpoint).0.error ≡ some retries_exceeded
unfolding deliver deliver_from
no_attempt_allowed = refl

deliver-Settles_example : Settles flaky 0 3 (deliver thrice flaky endpoint).0
deliver-Settles_example = deliver-Settles thrice flaky endpoint (omega arith)

abbrev receiver : Config
receiver = record {
  secret = some "k";
  header_name = "X-Revora-Signature";
  max_payload_size = 100;
  require_timestamp = false;
  max_age_ms = 50;
}

usual_header : to_lower receiver.header_name ≡ "x-revora-signature"
unfolding to_lower
usual_header = refl

webhook_auth-request_example :
    webhook_auth keyed receiver (raw "{}") (request_headers keyed "k" "payout.failed" "{}") 7
    ≡ passed none
webhook_auth-request_example =
    webhook_auth-request keyed receiver "k" "payout.failed" "{}" 7 refl usual_header refl
      (omega arith)

abbrev down : WebhookEndpointRecord
down = record { id = "e2"; url = "https://y.org"; secret = "j" }

abbrev networks : WebhookEndpointRecord → ℕ → Fetched
networks e = if str_eq e.id "e1" then flaky else λ attempt. thrown "refused"

-- One endpoint that is down does not keep the event from another.
one_of_two_is_reached :
    map (λ d. d.0.success) (emit thrice networks (some (down ∷ endpoint ∷ []))) ≡ false ∷ true ∷ []
unfolding emit deliver deliver_from
one_of_two_is_reached = refl
