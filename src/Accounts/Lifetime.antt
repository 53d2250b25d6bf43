-- ===== src/Accounts/Lifetime.antt =====
-- How long the access token of a login (src/auth/login, src/lib/jwt.ts) is accepted by the middleware of
-- src/middleware/authWithSession.ts.
use implement_offering_valid.Common.{ℕ, ◌+◌, ◌/◌, String, Option, none, some, pos}
use implement_offering_valid.Refresh.{RefreshTokenPayload, Tokens}
use implement_offering_valid.Claims.{
  JwtPayload, Checked, no_audience, ClaimValidationOptions, Verified, verify_token,
}
use implement_offering_valid.Accounts.{User, Crypto}

-- The claims of an access token of a login at the second `t`: `sign` adds when it was issued and, for
-- the expiry `1h`, when it ends.
abbrev pub access_claims : ℕ → String → User → JwtPayload
access_claims t session_id u = record {
  sub = some u.id;
  email = none;
  iat = some (pos t);
  exp = some (pos (t + 3600));
  nbf = none;
  iss = none;
  aud = no_audience;
  sid = some session_id;
  role = some u.role;
}

abbrev pub no_options : ClaimValidationOptions
no_options = record { issuer = none; audience = none; clock_tolerance_seconds = none }

module _ (crypto : Crypto) (sign : RefreshTokenPayload → Tokens)
    (verify : ℕ → String → String → Verified) (env : Option String) (secret : String) where
  -- `verifyToken` at an instant; `verify` is that of the package jsonwebtoken at a second.
  abbrev pub verify_at : ℕ → String → Checked JwtPayload
  verify_at now token = verify_token (verify (now / 1000)) env (now / 1000) no_options token
