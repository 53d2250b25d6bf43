-- ===== src/ResetLimiter.antt =====
-- The limiter of password resets (src/services/passwordResetRateLimiter.ts) over its table, whose
-- PRIMARY KEY is the identifier (src/db/migrations/011_create_password_reset_rate_limits.sql): an
-- INSERT of an identifier that is there throws. A call reads one clock, which is an argument.
pub mod Rejection
mod Tests
use implement_offering_valid.Common.{
  ℕ, ◌+◌, ◌-◌, ◌*◌, ◌/◌, String, Bool, true, false, Option, none, some, ltb, leb, if◌then◌else◌,
  Dict, lookup, insert, erase, ℤ, pos, ◌-ℤ◌, ◌+ℤ◌, ltb_ℤ, trim, to_lower,
}

pub record Config : Type 0 where
  pub max_requests : ℕ
  pub window_minutes : ℕ
  pub block_minutes : ℕ

pub record RateLimitResult : Type 0 where
  pub allowed : Bool
  pub remaining_requests : ℕ
  pub reset_at : ℤ
  pub retry_after : Option ℕ

pub record Row : Type 0 where
  pub request_at : ℕ
  pub blocked_until : Option ℕ

abbrev pub normalize_identifier : String → String
normalize_identifier s = to_lower (trim s)

abbrev still_blocked : ℕ → Row → Option ℕ
still_blocked now r = elim (r.blocked_until) [
  | none ↦ none
  | some t ↦ if ltb now t then some t else none
]

-- `checkIfBlocked` and `getBlockExpiry` send the same query.
unfoldable pub get_block_expiry : ℕ → String → Dict Row → Option ℕ
get_block_expiry now id table = elim (lookup id table) [
  | none ↦ none
  | some r ↦ still_blocked now r
]

abbrev pub window_start : Config → ℕ → ℤ
window_start c now = pos now -ℤ pos (c.window_minutes * 60_000)

-- The count of `getRequestCount`: there is at most one row.
unfoldable pub get_request_count : Config → ℕ → String → Dict Row → ℕ
get_request_count c now id table = elim (lookup id table) [
  | none ↦ 0
  | some r ↦ if ltb_ℤ (window_start c now) (pos r.request_at) then 1 else 0
]

unfoldable pub record_request : ℕ → String → Dict Row → Option (Dict Row)
record_request now id table = elim (lookup id table) [
  | none ↦ some (insert id (record { request_at = now; blocked_until = none }) table)
  | some _ ↦ none
]

unfoldable pub block_identifier : Config → ℕ → String → Dict Row → Dict Row
block_identifier c now id table =
    insert id (record { request_at = now; blocked_until = some (now + c.block_minutes * 60_000) })
      table

-- `Math.ceil((t - now) / 1000)`, which is positive as `now < t`.
abbrev retry_secs : ℕ → ℕ → ℕ
retry_secs now t = (t - now + 999) / 1000

abbrev pub refusal : ℤ → ℕ → RateLimitResult
refusal at_time secs = record {
  allowed = false;
  remaining_requests = 0;
  reset_at = at_time;
  retry_after = some secs;
}

-- `none` where it throws.
unfoldable pub check_rate_limit :
    Config → ℕ → String → Dict Row → Option (Dict Row × RateLimitResult)
check_rate_limit c now identifier table =
    let id = normalize_identifier identifier in
    elim (get_block_expiry now id table) [
      | some t ↦ some (table, refusal (pos t) (retry_secs now t))
      | none ↦
          let count = get_request_count c now id table in
          let reset_at = window_start c now +ℤ pos (c.window_minutes * 60_000) in
          if leb c.max_requests count
          then some (block_identifier c now id table, refusal reset_at (c.block_minutes * 60))
          else elim (record_request now id table) [
            | none ↦ none
            | some table' ↦ some (
              table',
              record {
                allowed = true;
                remaining_requests = c.max_requests - count - 1;
                reset_at = reset_at;
                retry_after = none;
              },
            )
          ]
    ]

unfoldable pub reset_rate_limit : String → Dict Row → Dict Row
reset_rate_limit identifier table = erase (normalize_identifier identifier) table
