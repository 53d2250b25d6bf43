-- ===== src/WebhookAuth/Tests.antt =====
-- The webhook middlewares at concrete requests, under a keyed function in place of Node's HMAC.
use Prim.Native.String
use Prim.Native.String.{len}
use implement_offering_valid.Common.{
  ◌≤◌, String, ◌≡◌, refl, ◌↔◌, false, none, some, [], ◌∷◌, Dict, lookup, is_empty, to_lower,
}
use implement_offering_valid.WebhookSignature.{
  string, buffer, HeaderValue, one, Hmac, Config, accepted, sign_webhook_payload, find_signature,
  check_timestamp,
}
use implement_offering_valid.WebhookAuth.{
  raw, plain, body_text, passed, webhook_auth, Provided, provided, webhook_auth_with_provider,
}
use implement_offering_valid.WebhookAuth.Agreement.{
  webhook_auth_iff, webhook_auth_with_provider_iff,
}

abbrev keyed : Hmac
keyed secret content = String.◌++◌ secret content

abbrev config : Config
config = record {
  secret = some "k";
  header_name = "x-revora-signature";
  max_payload_size = 100;
  require_timestamp = false;
  max_age_ms = 50;
}

abbrev signed_headers : Dict HeaderValue
signed_headers = ("x-revora-signature", one "sha256=k{}") ∷ []

abbrev empty_headers : Dict HeaderValue
empty_headers = ("x-revora-signature", one "sha256=k") ∷ []

empty_signed :
    find_signature config.header_name empty_headers
    ≡ some (sign_webhook_payload keyed "k" (buffer ""))
unfolding find_signature sign_webhook_payload lookup to_lower
empty_signed = refl

webhook_auth_iff_example : (webhook_auth keyed config (raw "{}") signed_headers 7 ≡ passed none) ↔ (
    (is_empty (body_text (raw "{}")) ≡ false)
    × (len (body_text (raw "{}")) ≤ config.max_payload_size)
    × (find_signature config.header_name signed_headers
        ≡ some (sign_webhook_payload keyed "k" (string (body_text (raw "{}")))))
    × (check_timestamp config.require_timestamp config.max_age_ms 7 signed_headers ≡ accepted none))
webhook_auth_iff_example = webhook_auth_iff keyed config "k" (raw "{}") signed_headers 7 none refl

abbrev one_endpoint : String → Provided
one_endpoint id = provided (some "k")

webhook_auth_with_provider_iff_example :
    (webhook_auth_with_provider keyed one_endpoint config (some "e1") (plain "{}") signed_headers 7
      ≡ passed none)
    ↔ ((is_empty "e1" ≡ false)
        × ((k : String) × (one_endpoint "e1" ≡ provided (some k))
            × (is_empty k ≡ false)
            × (webhook_auth keyed (record config { secret = some k }) (plain "{}") signed_headers 7
                ≡ passed none)))
webhook_auth_with_provider_iff_example =
    webhook_auth_with_provider_iff keyed one_endpoint config "e1" (plain "{}") signed_headers 7 none
