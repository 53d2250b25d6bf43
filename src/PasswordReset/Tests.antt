-- ===== src/PasswordReset/Tests.antt =====
-- Password resets over small tables.
use Prim.Native.String
use implement_offering_valid.Common.{
  ◌≡◌, refl, ◌≢◌, ◌↔◌, ◌≤◌, true, false, Bool, none, some, [], ◌∷◌, ◌++◌, arith, trim, to_lower,
  pos, lookup,
}
use implement_offering_valid.PasswordReset.{
  User, ResetToken, World, Service, rate_limited, find_user_by_email, find_reset_token,
  request_password_reset, Query, commit, connect, begin, select, rollback, update_user,
  update_token, answered, set_password, mark_used, reset_password,
}
use implement_offering_valid.ResetLimiter.{
  Config, RateLimitResult, refusal, check_rate_limit, get_block_expiry,
}
use implement_offering_valid.PasswordReset.Requests.{
  Alike, limiter_is_ignored, reset_password-request,
}
use implement_offering_valid.PasswordReset.SingleUse.{Works, reset_password_iff, token_is_used_once}

abbrev ann : User
ann = record { id = "u1"; email = "Ann@x.org"; password_hash = "#old" }

abbrev service : Service
service = record {
  limiter = some (record { max_requests = 3; window_minutes = 60; block_minutes = 15 });
  token_ttl_minutes = 60;
  app_url = "https://x.org";
  hash = λ t. String.◌++◌ "#" t;
  encode = λ t. t;
  delivers = λ mail. true;
}

abbrev one_user : World
one_user = record { users = ann ∷ []; reset_tokens = []; limits = []; sent = []; logged = [] }

abbrev stored : ResetToken
stored = record { id = "r1"; user_id = "u1"; token_hash = "#t"; expires_at = 100; used_at = none }

abbrev one_token : World
one_token = record one_user { reset_tokens = stored ∷ [] }

abbrev all_work : Query → Bool
all_work q = true

abbrev commit_fails : Query → Bool
commit_fails connect = true
commit_fails begin = true
commit_fails select = true
commit_fails rollback = true
commit_fails update_user = true
commit_fails update_token = true
commit_fails commit = false

every_query-Works : Works all_work
every_query-Works = (refl, refl, refl, refl, refl, refl)

found_ann : find_user_by_email (to_lower (trim " ann@x.org")) one_user.users ≡ some ann
unfolding find_user_by_email to_lower trim
found_ann = refl

no_token : find_reset_token (service.hash "t") one_user.reset_tokens ≡ none
unfolding find_reset_token
no_token = refl

reset_works : reset_password service all_work 50 "t" "new" one_token ≡ (
  record one_token {
    users = record ann { password_hash = "#new" } ∷ [];
    reset_tokens = record stored { used_at = some 50 } ∷ [];
  },
  answered true,
)
unfolding reset_password find_reset_token set_password mark_used
reset_works = refl

answers_true : (reset_password service all_work 50 "t" "new" one_token).1 ≡ answered true
unfolding reset_password find_reset_token
answers_true = refl

commit_failure : (reset_password service commit_fails 50 "t" "new" one_token).1 ≢ answered true
unfolding reset_password find_reset_token
commit_failure = λ e. absurd (cc)

abbrev limiter : Config
limiter = record { max_requests = 3; window_minutes = 60; block_minutes = 15 }

-- Ann is blocked up to the instant 900000.
abbrev blocked : World
blocked = record one_user {
  limits = ("ann@x.org", record { request_at = 1; blocked_until = some 900_000 }) ∷ [];
}

abbrev refused : RateLimitResult
refused = refusal (pos 900_000) 900

is_refused :
    check_rate_limit limiter 5 (to_lower (trim "ann@x.org")) blocked.limits
    ≡ some (blocked.limits, refused)
unfolding check_rate_limit get_block_expiry lookup to_lower trim
is_refused = refl

limiter_is_ignored_example :
    let asked = request_password_reset service 5 "r1" "t" "ann@x.org" blocked in
    Alike asked
      (request_password_reset (record service { limiter = none }) 5 "r1" "t" "ann@x.org" blocked)
    × (asked.0.limits ≡ blocked.limits)
    × (asked.0.logged ≡ [] ++ rate_limited 900 refused ∷ [])
limiter_is_ignored_example =
    limiter_is_ignored service limiter 5 900 "r1" "t" "ann@x.org" blocked blocked.limits refused
      refl is_refused refl refl

reset_password-request_example :
    let after = (request_password_reset service 5 "r1" "t" " ann@x.org" one_user).0 in
    let reset = reset_password service all_work 9 "t" "new" after in
    (reset.1 ≡ answered true) × (reset.0.users ≡ set_password "u1" "#new" one_user.users)
reset_password-request_example =
    reset_password-request service all_work 5 9 "r1" "t" " ann@x.org" "new" ann one_user found_ann
      no_token (omega arith) every_query-Works

reset_password_iff_example :
    ((reset_password service all_work 50 "t" "new" one_token).1 ≡ answered true) ↔ (
      Works all_work
      × ((row : ResetToken) × (find_reset_token (service.hash "t") one_token.reset_tokens
            ≡ some row)
          × (row.used_at ≡ none)
          × (50 ≤ row.expires_at)))
reset_password_iff_example = reset_password_iff service all_work 50 "t" "new" one_token

token_is_used_once_example :
    (reset_password service all_work 60 "t" "newer"
      (reset_password service all_work 50 "t" "new" one_token).0).1
    ≢ answered true
token_is_used_once_example =
    token_is_used_once service all_work all_work 50 60 "t" "new" "newer" one_token answers_true
