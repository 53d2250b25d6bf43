-- ===== src/PasswordReset/Requests.antt =====
-- What a request of a reset (src/services/passwordResetService.ts) does, and the reset that follows it.
use implement_offering_valid.Common.{
  ℕ, ◌+◌, ◌*◌, ◌≤◌, String, ◌≡◌, refl, ap, Bool, true, false, Dict, none, some, List, [], ◌∷◌, ◌++◌,
  arith, str_eq, Option-cases, Bool-cases, inl, inr, trim, to_lower,
}
use text.Mathlib.TextPositions.{eq_refl}
use implement_offering_valid.ResetLimiter.{Config, RateLimitResult, Row, check_rate_limit}
use implement_offering_valid.PasswordReset.{
  User, ResetToken, World, Service, Ending, rate_limited, ask_limiter, catch_error,
  find_user_by_email, find_reset_token, issue_token, request_password_reset, Query, answered,
  set_password, reset_password,
}
use implement_offering_valid.PasswordReset.SingleUse.{Works, reset_succeeds}

-- `Alike x y`: the same but for the limits and the console.
abbrev pub Alike : World × Ending → World × Ending → Type 0
Alike x y =
    (x.1 ≡ y.1)
    × (x.0.users ≡ y.0.users)
    × (x.0.reset_tokens ≡ y.0.reset_tokens)
    × (x.0.sent ≡ y.0.sent)

-- A refusal by the limiter does not stop a request: where the limiter refuses it for `secs` seconds, the
-- error that is thrown for that is written to the console and the limits are kept, and the request
-- ends the same way, and leaves the same users, tokens and mails, as for a service without a limiter.
pub limiter_is_ignored :
    (s : Service) (c : Config) (now secs : ℕ) (row_id token email : String) (w : World)
    (limits : Dict Row) (r : RateLimitResult)
    → s.limiter ≡ some c
    → check_rate_limit c now (to_lower (trim email)) w.limits ≡ some (limits, r)
    → r.allowed ≡ false
    → r.retry_after ≡ some secs
    → let asked = request_password_reset s now row_id token email w in
      Alike asked (request_password_reset (record s { limiter = none }) now row_id token email w)
      × (asked.0.limits ≡ limits)
      × (asked.0.logged ≡ w.logged ++ rate_limited secs r ∷ [])
unfolding request_password_reset issue_token ask_limiter catch_error
limiter_is_ignored s c now secs row_id token email w limits r has answer refused after =
    elim (Option-cases (find_user_by_email (to_lower (trim email)) w.users)) [
      | inl e ↦ ground (arith, has, answer, refused, after, e)
      | inr (u, e) ↦ elim (Option-cases (find_reset_token (s.hash token) w.reset_tokens)) [
        | inl f ↦ ground (arith, has, answer, refused, after, e, f)
        | inr (x, f) ↦ ground (arith, has, answer, refused, after, e, f)
      ]
    ]

find_reset_token-append :
    (h : String) (rows : List ResetToken) (row : ResetToken)
    → find_reset_token h rows ≡ none
    → row.token_hash ≡ h
    → find_reset_token h (rows ++ row ∷ []) ≡ some row
unfolding find_reset_token
find_reset_token-append h [] row f e = rw (e, eq_refl h) refl
find_reset_token-append h (r ∷ rows) row f e = elim (Bool-cases (str_eq r.token_hash h)) [
  | inl k ↦ absurd (ground arith)
  | inr k ↦ rw k (find_reset_token-append h rows row (ground arith) e)
]

abbrev row_of : Service → ℕ → String → String → User → ResetToken
row_of s now row_id token u = record {
  id = row_id;
  user_id = u.id;
  token_hash = s.hash token;
  expires_at = now + s.token_ttl_minutes * 60_000;
  used_at = none;
}

request_stores :
    (s : Service) (now : ℕ) (row_id token email : String) (u : User) (w : World)
    → find_user_by_email (to_lower (trim email)) w.users ≡ some u
    → find_reset_token (s.hash token) w.reset_tokens ≡ none
    → let after = (request_password_reset s now row_id token email w).0 in
      (after.users ≡ w.users)
      × (after.reset_tokens ≡ w.reset_tokens ++ row_of s now row_id token u ∷ [])
unfolding request_password_reset issue_token catch_error
request_stores s now row_id token email u w found new =
    elim (Option-cases (ask_limiter s.limiter now (to_lower (trim email)) w.limits).1) [
      | inl e ↦ ground arith
      | inr (x, e) ↦ ground arith
    ]

-- A request for the address of a user, with a token whose hash is new, stores the token, mailed or
-- not; until it expires, a reset with that token whose queries succeed answers true and gives that
-- user the new password's hash.
pub reset_password-request :
    (s : Service) (works : Query → Bool) (now later : ℕ) (row_id token email password : String)
    (u : User) (w : World)
    → find_user_by_email (to_lower (trim email)) w.users ≡ some u
    → find_reset_token (s.hash token) w.reset_tokens ≡ none
    → later ≤ now + s.token_ttl_minutes * 60_000
    → Works works
    → let after = (request_password_reset s now row_id token email w).0 in
      let reset = reset_password s works later token password after in
      (reset.1 ≡ answered true) × (reset.0.users ≡ set_password u.id (s.hash password) w.users)
reset_password-request s works now later row_id token email password u w found new l ok =
    let after = (request_password_reset s now row_id token email w).0 in
    let row = row_of s now row_id token u in
    let stored = request_stores s now row_id token email u w found new in
    let there : find_reset_token (s.hash token) after.reset_tokens ≡ some row =
      rw (stored.1) (find_reset_token-append (s.hash token) w.reset_tokens row new refl) in
    let done = reset_succeeds s works later token password after row ok there (ground arith) in
    (ap (λ z. z.1) done, rw (done, stored.0) refl)
