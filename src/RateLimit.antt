-- ===== src/RateLimit.antt =====
-- The fixed-window limiter (src/middleware/rateLimit.ts): `InMemoryRateLimitStore` and the
-- middleware of `createRateLimitMiddleware`. The clock readings are arguments.
pub mod Window
mod Tests
use Prim.Native.String
use implement_offering_valid.Common.{
  ℕ, ◌+◌, ◌-◌, ◌/◌, String, Bool, true, false, Option, none, some, List, [], ◌∷◌, ltb, leb,
  if◌then◌else◌, is_missing, Dict, lookup, insert, erase, ℤ, sub_ℕ,
}

pub record WindowEntry : Type 0 where
  pub count : ℕ
  pub reset_at : ℕ

pub record RateLimitOptions : Type 0 where
  pub limit : ℕ
  pub window_ms : ℕ
  pub per_user : Bool
  pub message : String

-- What the middleware reads of a request: `req.user?.sub`, `req.ip`, `req.socket?.remoteAddress`.
pub record Request : Type 0 where
  pub user_sub : Option String
  pub ip : Option String
  pub remote_address : Option String

unfoldable pub increment : ℕ → String → ℕ → Dict WindowEntry → Dict WindowEntry × WindowEntry
increment now key window_ms m =
    let opened : WindowEntry = record { count = 1; reset_at = now + window_ms } in
    elim (lookup key m) [
      | none ↦ (insert key opened m, opened)
      | some existing ↦
          let counted : WindowEntry = record existing { count = existing.count + 1 } in
          if leb existing.reset_at now
          then (insert key opened m, opened)
          else (insert key counted m, counted)
    ]

unfoldable pub reset : String → Dict WindowEntry → Dict WindowEntry
reset key m = erase key m

-- `a || b` on optional strings.
abbrev or_else : Option String → String → String
or_else none b = b
or_else (some a) b = if is_missing (some a) then b else a

-- The counter's key; `none` where no user is known, and the limiter does not apply.
unfoldable pub request_key : Bool → Request → Option String
request_key true req =
    if is_missing req.user_sub then none else some (String.◌++◌ "user:" (or_else req.user_sub ""))
request_key false req =
    some (String.◌++◌ "ip:" (or_else req.ip (or_else req.remote_address "unknown")))

-- The three headers that every counted response carries.
pub record RateHeaders : Type 0 where
  pub limit : ℕ
  pub remaining : ℕ
  pub reset_secs : ℕ

pub data Outcome : Type 0 where
  -- `next()` with no header set
  skipped : Outcome
  -- `next()`
  passed : RateHeaders → Outcome
  -- 429, with `Retry-After`, and the body's `message` and `retryAfter`
  too_many : RateHeaders → (retry_after : ℤ) → (message : String) → (retry_at : ℕ) → Outcome

-- `Math.ceil(ms / 1000)`
abbrev ceil_secs : ℕ → ℕ
ceil_secs ms = (ms + 999) / 1000

abbrev reply : RateLimitOptions → ℕ → WindowEntry → Outcome
reply o later e =
    let h : RateHeaders = record {
      limit = o.limit;
      remaining = o.limit - e.count;
      reset_secs = ceil_secs e.reset_at;
    } in
    if ltb o.limit e.count
    then too_many h (sub_ℕ (ceil_secs e.reset_at) (ceil_secs later)) o.message
        (ceil_secs e.reset_at)
    else passed h

-- One request: `now` is read by `increment`, `later` by the refusal.
unfoldable pub handle :
    RateLimitOptions → ℕ → ℕ → Request → Dict WindowEntry → Dict WindowEntry × Outcome
unfolding increment request_key
handle o now later req m = elim (request_key o.per_user req) [
  | none ↦ (m, skipped)
  | some key ↦ let (m', e) = increment now key o.window_ms m in (m', reply o later e)
]

pub record Arrival : Type 0 where
  pub now : ℕ
  pub later : ℕ
  pub req : Request

-- The requests of a process in the order in which they are handled.
unfoldable pub handle_all : RateLimitOptions → List Arrival → Dict WindowEntry → List Outcome
handle_all o [] m = []
handle_all o (a ∷ rest) m =
    let (m', out) = handle o a.now a.later a.req m in out ∷ handle_all o rest m'
