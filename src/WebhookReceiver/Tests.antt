-- ===== src/WebhookReceiver/Tests.antt =====
-- Requests to the two receivers, under a keyed function in place of Node's HMAC.
use Prim.Native.String
use implement_offering_valid.Common.{
  String, ◌≡◌, refl, Bool, true, false, ◌&&◌, ◌||◌, not, Option, none, some, [], ◌∷◌, Dict,
  is_empty, parse_int, lookup, utf16_length, ◌-ℤ◌,
}
use implement_offering_valid.WebhookSignature.{
  HeaderValue, one, Hmac, verify_webhook_payload, sign_webhook_payload,
}
use implement_offering_valid.WebhookAuth.{Provided, provided}
use implement_offering_valid.WebhookReceiver.{
  Body, object, text, other_value, undefined, validate_webhook_event, invalid, bad_id, Config,
  default_event_handler, receive, receive_for_endpoint, timestamp_expired, process, processed,
  check_age,
}
use implement_offering_valid.WebhookReceiver.Replay.{
  is_handled, is_signed, is_signed_for, is_fresh, is_event, handled_iff_signed,
}

abbrev keyed : Hmac
keyed secret content = String.◌++◌ secret content

abbrev parse : String → Option Body
parse s = some (object (text "e1") (text "paid") (other_value s) (text "2026-01-01"))

abbrev is_date : String → Bool
is_date s = not (is_empty s)

abbrev headers : Dict HeaderValue
headers = ("x-revora-signature", one "sha256=k{}") ∷ ("x-webhook-timestamp", one "900") ∷ []

abbrev config : Config
config = record { require_timestamp = true; max_age_ms = 50 }

abbrev provider : String → Provided
provider id = provided (some "k")

id_is_needed :
    validate_webhook_event is_date (object (other_value "7") (text "paid") undefined undefined)
    ≡ invalid bad_id
unfolding validate_webhook_event
id_is_needed = refl

old_event_is_refused :
    receive keyed parse is_date "k" config default_event_handler 1000 headers "{}"
    ≡ timestamp_expired
unfolding receive check_age verify_webhook_payload sign_webhook_payload lookup utf16_length
    parse_int ◌-ℤ◌
old_event_is_refused = refl

old_event_reaches_endpoint :
    receive_for_endpoint keyed parse is_date provider config none 1000 (some "ep") headers "{}"
    ≡ processed "e1" "Event paid processed successfully"
unfolding receive_for_endpoint verify_webhook_payload sign_webhook_payload lookup utf16_length
    process validate_webhook_event default_event_handler
old_event_reaches_endpoint = refl

handled_iff_signed_example :
    (is_handled (receive keyed parse is_date "k" config default_event_handler 1000 headers "{}") ≡ (
      is_signed keyed "k" headers "{}"
      && ((false || is_fresh 1000 50 headers) && is_event parse is_date "{}")))
    × (is_handled (
          receive_for_endpoint keyed parse is_date provider config none 1000
            (some "ep")
            headers
            "{}")
        ≡ (is_signed_for keyed provider (some "ep") headers "{}" && is_event parse is_date "{}"))
handled_iff_signed_example =
    handled_iff_signed keyed parse is_date "k" provider config default_event_handler none 1000
      (some "ep") headers "{}"
