-- ===== src/PasswordReset.antt =====
-- Password resets (src/services/passwordResetService.ts) over the tables of users and reset tokens.
-- Hashing, encoding of the link and the mailer are parameters; the clock, the random token and the id
-- that the database gives a row are arguments. Each query of a reset may fail.
pub mod Requests
pub mod SingleUse
mod Tests
use Prim.Native.String
use implement_offering_valid.Common.{
  ℕ, ◌+◌, ◌*◌, String, Bool, true, false, ◌&&◌, not, Option, none, some, List, [], ◌∷◌, ◌++◌, ltb,
  if◌then◌else◌, str_eq, Dict, trim, to_lower,
}
use implement_offering_valid.ResetLimiter.{Config, RateLimitResult, Row, check_rate_limit}

pub record User : Type 0 where
  pub id : String
  pub email : String
  pub password_hash : String

pub record ResetToken : Type 0 where
  pub id : String
  pub user_id : String
  pub token_hash : String
  pub expires_at : ℕ
  pub used_at : Option ℕ

pub record Email : Type 0 where
  pub to : String
  pub link : String

-- What the try block around the limiter throws: the limiter's own error, or the error for a refusal, with
-- its `retryAfter`.
pub data LimiterError : Type 0 where
  limiter_failed : LimiterError
  rate_limited : (retry_after : ℕ) → RateLimitResult → LimiterError

-- `logged` are the errors written to the console.
pub record World : Type 0 where
  pub users : List User
  pub reset_tokens : List ResetToken
  pub limits : Dict Row
  pub sent : List Email
  pub logged : List LimiterError

-- `limiter` is `none` where the service has none; `delivers` says whether the mailer succeeds.
pub record Service : Type 0 where
  pub limiter : Option Config
  pub token_ttl_minutes : ℕ
  pub app_url : String
  pub hash : String → String
  pub encode : String → String
  pub delivers : Email → Bool

-- `WHERE LOWER(email) = $1 LIMIT 1`
unfoldable pub find_user_by_email : String → List User → Option User
find_user_by_email email [] = none
find_user_by_email email (u ∷ us) =
    if str_eq (to_lower u.email) email then some u else find_user_by_email email us

-- `WHERE token_hash = $1`
unfoldable pub find_reset_token : String → List ResetToken → Option ResetToken
find_reset_token h [] = none
find_reset_token h (r ∷ rs) = if str_eq r.token_hash h then some r else find_reset_token h rs

-- `rateLimitResult.retryAfter ?? this.rateLimiter['blockMinutes'] * 60`
abbrev retry_after : Config → RateLimitResult → ℕ
retry_after c r = elim (r.retry_after) [ some t ↦ t | none ↦ c.block_minutes * 60 ]

-- The try block: the limits after it, and what it throws.
unfoldable pub ask_limiter : Option Config → ℕ → String → Dict Row → Dict Row × Option LimiterError
ask_limiter none now email limits = (limits, none)
ask_limiter (some c) now email limits = elim (check_rate_limit c now email limits) [
  | none ↦ (limits, some limiter_failed)
  | some answer ↦
      if not answer.1.allowed
      then (answer.0, some (rate_limited (retry_after c answer.1) answer.1))
      else (answer.0, none)
]

-- What comes out of a try statement: the world to go on in, or an error to pass on.
pub data Tried : Type 0 where
  goes_on stops : World → Tried

-- The catch clause: every error is written to the console, and the request goes on.
unfoldable pub catch_error : Option LimiterError → World → Tried
catch_error none w = goes_on w
catch_error (some e) w = goes_on (record w { logged = w.logged ++ e ∷ [] })

-- What a request did: it returned, or it threw.
pub data Ending : Type 0 where
  returned threw : Ending

-- The UNIQUE constraint on `token_hash` makes the INSERT of a hash that is there throw.
unfoldable pub issue_token : Service → ℕ → String → String → User → World → World × Ending
issue_token s now row_id token u w = elim (find_reset_token (s.hash token) w.reset_tokens) [
  | some _ ↦ (w, threw)
  | none ↦
      let row : ResetToken = record {
        id = row_id;
        user_id = u.id;
        token_hash = s.hash token;
        expires_at = now + s.token_ttl_minutes * 60_000;
        used_at = none;
      } in
      let stored : World = record w { reset_tokens = w.reset_tokens ++ row ∷ [] } in
      let mail : Email = record {
        to = u.email;
        link = String.◌++◌ s.app_url (String.◌++◌ "/reset-password?token=" (s.encode token));
      } in
      if s.delivers mail
      then (record stored { sent = w.sent ++ mail ∷ [] }, returned)
      else (stored, threw)
]

unfoldable pub request_password_reset :
    Service → ℕ → String → String → String → World → World × Ending
request_password_reset s now row_id token email_raw w =
    let email = to_lower (trim email_raw) in
    let (limits, thrown) = ask_limiter s.limiter now email w.limits in
    elim (catch_error thrown (record w { limits = limits })) [
      | stops asked ↦ (asked, threw)
      | goes_on asked ↦ elim (find_user_by_email email asked.users) [
        | none ↦ (asked, returned)
        | some u ↦ issue_token s now row_id token u asked
      ]
    ]

-- The queries of a reset, each of which may fail.
pub data Query : Type 0 where
  connect begin select rollback update_user update_token commit : Query

pub data ResetAnswer : Type 0 where
  answered : Bool → ResetAnswer
  failed : ResetAnswer

unfoldable pub set_password : String → String → List User → List User
set_password id h [] = []
set_password id h (u ∷ us) =
    (if str_eq u.id id then record u { password_hash = h } else u) ∷ set_password id h us

unfoldable pub mark_used : ℕ → String → List ResetToken → List ResetToken
mark_used now id [] = []
mark_used now id (r ∷ rs) =
    (if str_eq r.id id then record r { used_at = some now } else r) ∷ mark_used now id rs

-- `row.used_at || new Date(row.expires_at) < new Date()`
abbrev pub is_spent : ℕ → ResetToken → Bool
is_spent now r = elim (r.used_at) [ some t ↦ true | none ↦ ltb r.expires_at now ]

-- The transaction ends without a change, and with an error if `ROLLBACK` fails.
abbrev roll_back : (Query → Bool) → World → World × ResetAnswer
roll_back works w = (w, if works rollback then answered false else failed)

-- Up to `COMMIT` the changes are the transaction's own: an error leaves the tables as they were.
unfoldable pub reset_password :
    Service → (Query → Bool) → ℕ → String → String → World → World × ResetAnswer
reset_password s works now token_raw new_password w =
    if not (works connect && works begin && works select)
    then (w, failed)
    else elim (find_reset_token (s.hash token_raw) w.reset_tokens) [
      | none ↦ roll_back works w
      | some row ↦
          if is_spent now row
          then roll_back works w
          else if not (works update_user && works update_token && works commit)
          then (w, failed)
          else (
            record w {
              users = set_password row.user_id (s.hash new_password) w.users;
              reset_tokens = mark_used now row.id w.reset_tokens;
            },
            answered true,
          )
    ]
