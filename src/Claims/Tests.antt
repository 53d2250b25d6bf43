-- ===== src/Claims/Tests.antt =====
-- Claims at concrete times.
use implement_offering_valid.Common.{◌≡◌, refl, none, some, arith, pos, ◌-ℤ◌, trim, utf16_length}
use implement_offering_valid.Claims.{
  JwtPayload, single, ClaimValidationOptions, expired, audience_mismatch, validate_claims, raised,
  secret_short, get_jwt_secret,
}
use implement_offering_valid.Claims.Window.{accepted_between}

abbrev payload : JwtPayload
payload = record {
  sub = some "ann";
  email = none;
  iat = some (pos 100);
  exp = some (pos 200);
  nbf = none;
  iss = none;
  aud = single "api";
  sid = none;
  role = none;
}

abbrev options : ClaimValidationOptions
options = record { issuer = none; audience = some "api"; clock_tolerance_seconds = none }

accepted_early : validate_claims 70 payload options ≡ none
unfolding validate_claims trim ◌-ℤ◌
accepted_early = refl

accepted_late : validate_claims 230 payload options ≡ none
unfolding validate_claims trim ◌-ℤ◌
accepted_late = refl

refused_later : validate_claims 231 payload options ≡ some expired
unfolding validate_claims trim ◌-ℤ◌
refused_later = refl

other_audience :
    validate_claims 150 payload (record options { audience = some "web" })
    ≡ some (audience_mismatch "web")
unfolding validate_claims trim ◌-ℤ◌
other_audience = refl

short_secret : get_jwt_secret (some "secret") ≡ raised secret_short
unfolding get_jwt_secret utf16_length
short_secret = refl

accepted_in_between : validate_claims 150 payload options ≡ none
accepted_in_between =
    accepted_between 70 150 230 payload options (omega arith) (omega arith) accepted_early
      accepted_late
