-- ===== src/Claims.antt =====
-- Claims of tokens (src/lib/jwt.ts). The package jsonwebtoken is the parameters `sign` and `verify`;
-- times are in seconds. A claim that should be a text and is none counts as absent.
pub mod Window
mod Tests
use implement_offering_valid.Common.{
  ℕ, ◌+◌, String, Bool, true, false, ◌&&◌, ◌||◌, not, Option, none, some, List, [], ◌∷◌, ltb,
  if◌then◌else◌, str_eq, is_missing, is_empty, trim, utf16_length, ℤ, pos, ◌-ℤ◌, ltb_ℤ,
}

pub data Audience : Type 0 where
  no_audience : Audience
  single : String → Audience
  several : List String → Audience

pub record JwtPayload : Type 0 where
  pub sub : Option String
  pub email : Option String
  pub iat : Option ℤ
  pub exp : Option ℤ
  pub nbf : Option ℤ
  pub iss : Option String
  pub aud : Audience
  pub sid : Option String
  pub role : Option String

pub record ClaimValidationOptions : Type 0 where
  pub issuer : Option String
  pub audience : Option String
  pub clock_tolerance_seconds : Option ℕ

pub data ClaimError : Type 0 where
  subject_missing expired issued_in_future not_yet_valid : ClaimError
  issuer_mismatch audience_mismatch : String → ClaimError

abbrev pub tolerance_of : ClaimValidationOptions → ℕ
tolerance_of o = elim (o.clock_tolerance_seconds) [ none ↦ 30 | some t ↦ t ]

-- `!sub || typeof sub !== 'string' || sub.trim() === ''`
abbrev pub is_no_subject : Option String → Bool
is_no_subject none = true
is_no_subject (some s) = is_empty s || is_empty (trim s)

abbrev pub is_past : Option ℤ → ℕ → ℕ → Bool
is_past none now tolerance = false
is_past (some t) now tolerance = ltb_ℤ t (pos now -ℤ pos tolerance)

abbrev pub is_ahead : Option ℤ → ℕ → ℕ → Bool
is_ahead none now tolerance = false
is_ahead (some t) now tolerance = ltb_ℤ (pos (now + tolerance)) t

abbrev is_same : Option String → String → Bool
is_same none b = false
is_same (some a) b = str_eq a b

unfoldable pub has_text : String → List String → Bool
has_text s [] = false
has_text s (t ∷ ts) = str_eq t s || has_text s ts

abbrev has_audience : String → Audience → Bool
has_audience s no_audience = false
has_audience s (single t) = str_eq t s
has_audience s (several ts) = has_text s ts

abbrev pub is_other_issuer : Option String → Option String → Bool
is_other_issuer none iss = false
is_other_issuer (some issuer) iss = not (is_same iss issuer)

abbrev pub is_other_audience : Option String → Audience → Bool
is_other_audience none aud = false
is_other_audience (some audience) aud = not (has_audience audience aud)

abbrev or_blank : Option String → String
or_blank none = ""
or_blank (some s) = s

-- `none` where the call returns.
unfoldable pub validate_claims : ℕ → JwtPayload → ClaimValidationOptions → Option ClaimError
validate_claims now p o =
    let tolerance = tolerance_of o in
    if is_no_subject p.sub
    then some subject_missing
    else if is_past p.exp now tolerance
    then some expired
    else if is_ahead p.iat now tolerance
    then some issued_in_future
    else if is_ahead p.nbf now tolerance
    then some not_yet_valid
    else if is_other_issuer o.issuer p.iss
    then some (issuer_mismatch (or_blank o.issuer))
    else if is_other_audience o.audience p.aud
    then some (audience_mismatch (or_blank o.audience))
    else none

pub data TokenError : Type 0 where
  secret_missing secret_short token_expired : TokenError
  not_verified : String → TokenError
  claim_refused : ClaimError → TokenError

pub data Checked (A : Type 0) : Type 0 where
  raised : TokenError → Checked A
  fine : A → Checked A

-- `process.env.JWT_SECRET`
unfoldable pub get_jwt_secret : Option String → Checked String
get_jwt_secret none = raised secret_missing
get_jwt_secret (some secret) =
    if is_empty secret
    then raised secret_missing
    else if ltb (utf16_length secret) 32
    then raised secret_short
    else fine secret

-- What `jwt.verify` gives: the payload, a `TokenExpiredError`, or another error by its name.
pub data Verified : Type 0 where
  verified : JwtPayload → Verified
  expired_error : Verified
  other_error : String → Verified

pub record TokenOptions : Type 0 where
  pub expires_in : Option String
  pub subject : String
  pub email : Option String
  pub sid : Option String
  pub role : Option String

abbrev or_default : Option String → String
or_default none = "1h"
or_default (some s) = if is_empty s then "1h" else s

abbrev given : Option String → Option String
given s = if is_missing s then none else s

unfoldable pub issue_token :
    (sign : String → JwtPayload → String → String) → Option String → TokenOptions → Checked String
issue_token sign env o = elim (get_jwt_secret env) [
  | raised e ↦ raised e
  | fine secret ↦ fine (
      sign secret
        (record {
          sub = some o.subject;
          email = given o.email;
          iat = none;
          exp = none;
          nbf = none;
          iss = none;
          aud = no_audience;
          sid = o.sid;
          role = o.role;
        })
        (or_default o.expires_in))
]

abbrev pub claims_checked : ℕ → ClaimValidationOptions → JwtPayload → Checked JwtPayload
claims_checked now o p = elim (validate_claims now p o) [
  | some e ↦ raised (claim_refused e)
  | none ↦ fine p
]

unfoldable pub verify_token :
    (verify : String → String → Verified)
    → Option String
    → ℕ
    → ClaimValidationOptions
    → String
    → Checked JwtPayload
verify_token verify env now o token = elim (get_jwt_secret env) [
  | raised e ↦ raised e
  | fine secret ↦ elim (verify secret token) [
    | expired_error ↦ raised token_expired
    | other_error name ↦ raised (not_verified name)
    | verified p ↦ claims_checked now o p
  ]
]
