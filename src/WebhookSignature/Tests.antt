-- ===== src/WebhookSignature/Tests.antt =====
-- Signatures at concrete payloads, under a keyed function in place of Node's HMAC.
use Prim.Native.String
use Prim.Native.String.{len}
use implement_offering_valid.Common.{
  ◌≤◌, String, ◌≡◌, refl, ◌↔◌, true, false, some, [], ◌∷◌, Dict, lookup, pos, ◌≤ℤ◌, ◌+ℤ◌, parse_int,
  to_lower, utf16_length, ◌-ℤ◌,
}
use implement_offering_valid.WebhookSignature.{
  string, content, is_falsy, HeaderValue, one, many, Hmac, Config, accepted, sign_webhook_payload,
  verify_webhook_payload, find_signature, extract_signature_from_headers, extract_from, is_outside,
  check_timestamp, verify_webhook, timestamp_header, or_blank, assert_valid_webhook_signature,
  signature_malformed,
}
use implement_offering_valid.WebhookSignature.Authenticity.{verify_webhook_iff}
use implement_offering_valid.WebhookSignature.Freshness.{accepted_timestamp_is_fresh}

abbrev keyed : Hmac
keyed secret content = String.◌++◌ secret content

abbrev signed_headers : Dict HeaderValue
signed_headers = ("x-revora-signature", one "sha256=k{}") ∷ ("x-webhook-timestamp", one "990") ∷ []

abbrev config : Config
config = record {
  secret = some "k";
  header_name = "X-Revora-Signature";
  max_payload_size = 100;
  require_timestamp = true;
  max_age_ms = 50;
}

fresh_is_accepted :
    verify_webhook keyed config (string "{}") signed_headers 1000 ≡ accepted (some (pos 990))
unfolding verify_webhook verify_webhook_payload check_timestamp find_signature sign_webhook_payload
    lookup parse_int to_lower utf16_length is_outside ◌-ℤ◌
fresh_is_accepted = refl

first_of_many_is_taken :
    extract_signature_from_headers (("x-signature", many ("a" ∷ "b" ∷ [])) ∷ []) ≡ some "a"
unfolding extract_signature_from_headers extract_from lookup to_lower
first_of_many_is_taken = refl

bad_prefix_is_malformed :
    assert_valid_webhook_signature keyed (some "k") (string "{}") (some "md5=k{}")
    ≡ some signature_malformed
unfolding assert_valid_webhook_signature
bad_prefix_is_malformed = refl

verify_webhook_iff_example :
    (verify_webhook keyed config (string "{}") signed_headers 1000 ≡ accepted (some (pos 990))) ↔ (
      (len (content (string "{}")) ≤ config.max_payload_size)
      × (is_falsy (string "{}") ≡ false)
      × ((k : String) × (config.secret ≡ some k)
          × (find_signature config.header_name signed_headers
              ≡ some (sign_webhook_payload keyed k (string "{}"))))
      × (check_timestamp config.require_timestamp config.max_age_ms 1000 signed_headers
          ≡ accepted (some (pos 990))))
verify_webhook_iff_example =
    verify_webhook_iff keyed config (string "{}") signed_headers 1000 (some (pos 990))

checked_timestamp : check_timestamp true 50 1000 signed_headers ≡ accepted (some (pos 990))
unfolding check_timestamp lookup parse_int is_outside ◌-ℤ◌
checked_timestamp = refl

accepted_timestamp_is_fresh_example :
    (parse_int (or_blank (timestamp_header signed_headers)) ≡ some (pos 990))
    × (pos 990 ≤ℤ pos 1000)
    × (pos 1000 ≤ℤ pos 50 +ℤ pos 990)
accepted_timestamp_is_fresh_example =
    accepted_timestamp_is_fresh 1000 50 (pos 990) signed_headers checked_timestamp refl

abbrev far_headers : Dict HeaderValue
far_headers = ("x-webhook-timestamp", one "9000000000000000") ∷ []

far_header : timestamp_header far_headers ≡ some "9000000000000000"
unfolding lookup
far_header = refl

far_parsed : parse_int "9000000000000000" ≡ some (pos 9_000_000_000_000_000)
unfolding parse_int
far_parsed = refl
