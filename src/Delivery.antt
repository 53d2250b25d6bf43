-- ===== src/Delivery.antt =====
-- Delivery of webhooks (src/services/webhookService.ts): the loop over attempts and the request that
-- is sent. The network is a parameter: what `fetch` does at each attempt, an abort included.
pub mod Attempts
pub mod Acceptance
mod Tests
use Prim.Native.String
use implement_offering_valid.Common.{
  ℕ, zero, suc, ◌+◌, ◌-◌, ◌*◌, ◌^◌, String, Bool, true, false, ◌&&◌, not, Option, none, some, List,
  [], ◌∷◌, ◌++◌, ltb, leb, map, ◌==◌, if◌then◌else◌, Dict,
}
use implement_offering_valid.WebhookSignature.{Hmac, HeaderValue, one}

-- `response.status` and `response.ok`, or the message of what is thrown.
pub data Fetched : Type 0 where
  response : ℕ → Bool → Fetched
  thrown : String → Fetched

-- The `error` of a result.
pub data DeliveryError : Type 0 where
  non_retryable http : ℕ → DeliveryError
  message : String → DeliveryError
  retries_exceeded : DeliveryError

pub record WebhookEndpointRecord : Type 0 where
  pub id : String
  pub url : String
  pub secret : String

pub record DeliveryResult : Type 0 where
  pub endpoint_id : String
  pub url : String
  pub success : Bool
  pub attempts : ℕ
  pub status_code : Option ℕ
  pub error : Option DeliveryError

pub record Options : Type 0 where
  pub max_retries : ℕ
  pub initial_delay_ms : ℕ

unfoldable pub sign_payload : Hmac → String → String → String
sign_payload hmac secret body = String.◌++◌ "sha256=" (hmac secret body)

-- The headers of the request, as its receiver reads them: Node gives names in lower case.
unfoldable pub request_headers : Hmac → String → String → String → Dict HeaderValue
request_headers hmac secret event body =
    ("content-type", one "application/json")
    ∷ ("x-revora-signature", one (sign_payload hmac secret body))
    ∷ ("x-revora-event", one event)
    ∷ []

-- `4xx (except 429 Too Many Requests) are non-retryable`
abbrev pub is_non_retryable : ℕ → Bool
is_non_retryable status = leb 400 status && ltb status 500 && not (status == 429)

-- What is waited before an attempt.
abbrev pub delays : Options → ℕ → List ℕ
delays o attempt = if ltb 1 attempt then o.initial_delay_ms * 2 ^ (attempt - 2) ∷ [] else []

abbrev or_exceeded : Option DeliveryError → DeliveryError
or_exceeded none = retries_exceeded
or_exceeded (some e) = e

module _ (o : Options) (network : ℕ → Fetched) (endpoint : WebhookEndpointRecord) where
  abbrev ended : Bool → ℕ → Option ℕ → Option DeliveryError → DeliveryResult
  ended success attempts status error = record {
    endpoint_id = endpoint.id;
    url = endpoint.url;
    success = success;
    attempts = attempts;
    status_code = status;
    error = error;
  }

  -- The loop of `deliver`, by the attempts that are left and the number of those made, with the waits.
  unfoldable pub deliver_from :
      ℕ → ℕ → Option ℕ → Option DeliveryError → List ℕ → DeliveryResult × List ℕ
  deliver_from zero made last_status last_error waits =
      (ended false made last_status (some (or_exceeded last_error)), waits)
  deliver_from (suc left) made last_status last_error waits =
      let attempt = suc made in
      let waited = waits ++ delays o attempt in
      elim (network attempt) [
        | thrown m ↦ deliver_from left attempt last_status (some (message m)) waited
        | response status ok ↦
            let rest = deliver_from left attempt (some status) (some (http status)) waited in
            if ok
            then (ended true attempt (some status) none, waited)
            else if is_non_retryable status
            then (ended false attempt (some status) (some (non_retryable status)), waited)
            else rest
      ]

  unfoldable pub deliver : DeliveryResult × List ℕ
  unfolding deliver_from
  deliver = deliver_from o.max_retries 0 none none []

-- The deliveries that `emit` starts, one for each endpoint and independent of the others; `none` where
-- the endpoints cannot be fetched.
unfoldable pub emit :
    Options
    → (WebhookEndpointRecord → ℕ → Fetched)
    → Option (List WebhookEndpointRecord)
    → List (DeliveryResult × List ℕ)
emit o networks none = []
emit o networks (some endpoints) = map (λ e. deliver o (networks e) e) endpoints
