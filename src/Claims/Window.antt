-- ===== src/Claims/Window.antt =====
-- The times at which the claims of a token hold.
use implement_offering_valid.Common.{
  ℕ, ◌≤◌, ◌≡◌, refl, Bool, true, false, ◌&&◌, not, Option, none, some, arith, ℤ, pos, negsuc, ◌-ℤ◌,
}
use implement_offering_valid.Claims.{
  JwtPayload, ClaimValidationOptions, tolerance_of, is_past, is_ahead, is_no_subject,
  is_other_issuer, is_other_audience, validate_claims,
}

is_past-earlier :
    (t : Option ℤ) (now later tolerance : ℕ)
    → now ≤ later
    → is_past t later tolerance ≡ false
    → is_past t now tolerance ≡ false
unfolding ◌-ℤ◌
is_past-earlier none now later tolerance l h = refl
is_past-earlier (some (pos n)) now later tolerance l h = ground arith
is_past-earlier (some (negsuc n)) now later tolerance l h = ground arith

is_ahead-later :
    (t : Option ℤ) (now later tolerance : ℕ)
    → now ≤ later
    → is_ahead t now tolerance ≡ false
    → is_ahead t later tolerance ≡ false
is_ahead-later none now later tolerance l h = refl
is_ahead-later (some (pos n)) now later tolerance l h = ground arith
is_ahead-later (some (negsuc n)) now later tolerance l h = ground arith

-- The tests that look at the clock, in one.
abbrev in_time : JwtPayload → ℕ → ℕ → Bool
in_time p now tolerance =
    not (is_past p.exp now tolerance)
    && (not (is_ahead p.iat now tolerance) && not (is_ahead p.nbf now tolerance))

-- And those that do not.
abbrev is_meant : JwtPayload → ClaimValidationOptions → Bool
is_meant p o =
    not (is_no_subject p.sub)
    && (not (is_other_issuer o.issuer p.iss) && not (is_other_audience o.audience p.aud))

accepted_parts :
    (now : ℕ) (p : JwtPayload) (o : ClaimValidationOptions)
    → validate_claims now p o ≡ none
    → (in_time p now (tolerance_of o) ≡ true) × (is_meant p o ≡ true)
unfolding validate_claims
accepted_parts now p o h = (ground arith, ground arith)

accepted_of_parts :
    (now : ℕ) (p : JwtPayload) (o : ClaimValidationOptions)
    → in_time p now (tolerance_of o) ≡ true
    → is_meant p o ≡ true
    → validate_claims now p o ≡ none
unfolding validate_claims
accepted_of_parts now p o h k = ground arith

in_time_between :
    (p : JwtPayload) (first now last tolerance : ℕ)
    → first ≤ now
    → now ≤ last
    → in_time p first tolerance ≡ true
    → in_time p last tolerance ≡ true
    → in_time p now tolerance ≡ true
in_time_between p first now last tolerance a b h k =
    let past = is_past-earlier p.exp now last tolerance b (ground arith) in
    let issued = is_ahead-later p.iat first now tolerance a (ground arith) in
    let active = is_ahead-later p.nbf first now tolerance a (ground arith) in
    rw (past, issued, active) refl

-- A token whose claims are accepted at one time and at a later time is accepted at any time between
-- them.
pub accepted_between :
    (first now last : ℕ) (p : JwtPayload) (o : ClaimValidationOptions)
    → first ≤ now
    → now ≤ last
    → validate_claims first p o ≡ none
    → validate_claims last p o ≡ none
    → validate_claims now p o ≡ none
accepted_between first now last p o a b h k =
    let (early, meant) = accepted_parts first p o h in
    let (late, _) = accepted_parts last p o k in
    accepted_of_parts now p o (in_time_between p first now last (tolerance_of o) a b early late)
      meant
