-- ===== src/ResetLimiter/Tests.antt =====
-- The limiter at concrete calls.
use implement_offering_valid.Common.{
  ◌≡◌, refl, true, false, none, some, [], ◌∷◌, arith, Dict, lookup, insert, erase, pos, ◌+ℤ◌, ◌-ℤ◌,
  trim, to_lower,
}
use implement_offering_valid.ResetLimiter.{
  Config, RateLimitResult, Row, check_rate_limit, reset_rate_limit, get_block_expiry,
  get_request_count, record_request, block_identifier,
}
use implement_offering_valid.ResetLimiter.Rejection.{after_calls, result_allows}

abbrev config : Config
config = record { max_requests = 3; window_minutes = 60; block_minutes = 15 }

abbrev allowed_once : Dict Row × RateLimitResult
allowed_once = (
  ("ann", record { request_at = 5_000_000; blocked_until = none }) ∷ [],
  record { allowed = true; remaining_requests = 2; reset_at = pos 5_000_000; retry_after = none },
)

-- The window of the first call ends at once: `resetAt` is the time of the call.
first_is_allowed : check_rate_limit config 5_000_000 "ann" [] ≡ some allowed_once
unfolding check_rate_limit get_block_expiry get_request_count record_request lookup insert trim
    to_lower ◌+ℤ◌ ◌-ℤ◌
first_is_allowed = refl

first_after_none :
    check_rate_limit config 5_000_000 "ann" (after_calls config [] []) ≡ some allowed_once
unfolding after_calls
first_after_none = first_is_allowed

result_allows_example : allowed_once.1.allowed ≡ true
result_allows_example =
    result_allows config [] 5_000_000 "ann" allowed_once (omega arith) first_after_none

-- With a limit of one the second request is refused and the identifier blocked.
one_is_enforced :
    check_rate_limit (record config { max_requests = 1 }) 5_000_001 "ann" allowed_once.0
    ≡ some (
      ("ann", record { request_at = 5_000_001; blocked_until = some 5_900_001 }) ∷ [],
      record {
        allowed = false;
        remaining_requests = 0;
        reset_at = pos 5_000_001;
        retry_after = some 900;
      },
    )
unfolding check_rate_limit get_block_expiry get_request_count block_identifier lookup insert trim
    to_lower ◌+ℤ◌ ◌-ℤ◌
one_is_enforced = refl

reset_forgets : reset_rate_limit "ann" allowed_once.0 ≡ []
unfolding reset_rate_limit erase trim to_lower
reset_forgets = refl
