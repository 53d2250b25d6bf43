-- ===== src/Access.antt =====
-- Authentication of requests: the middleware and the routes of src/middleware/session.ts over the
-- session registry.
pub mod Registry
pub mod Tokens
mod Tests
use text.Mathlib.Text.{starts_with}
use implement_offering_valid.Common.{
  ℕ, String, Bool, true, false, ◌&&◌, ◌||◌, Option, none, some, if◌then◌else◌, is_missing,
  drop_chars,
}
use implement_offering_valid.Session.{Store, create, get, delete}

-- What a middleware does: it calls `next`, or answers with a status and a message.
pub data Reply (A : Type 0) : Type 0 where
  passed : A → Reply A
  denied : (status : ℕ) → (message : String) → Reply A

abbrev pub or_blank : Option String → String
or_blank none = ""
or_blank (some s) = s

-- `startsWith('Bearer ')`, then `slice(7)`.
abbrev pub bearer_token : Option String → Option String
bearer_token none = none
bearer_token (some header) =
    if starts_with header "Bearer " then some (drop_chars 7 header) else none

pub record SessionUser : Type 0 where
  pub id : String
  pub role : String
  pub session_token : String

-- `createSessionAuth`
unfoldable pub session_auth : ℕ → Option String → Store → Store × Reply SessionUser
session_auth now header store = elim (bearer_token header) [
  | none ↦ (store, denied 401 "Missing or malformed Authorization header.")
  | some token ↦
      let (store', found) = get now token store in
      elim (found) [
        | none ↦ (store', denied 401 "Session not found or expired.")
        | some session ↦ (
          store',
          passed
              (record { id = session.user_id; role = session.role; session_token = session.token }),
        )
      ]
]

-- `POST /session/login`: the answer names the token and its expiry.
unfoldable pub login :
    (token : String) → ℕ → (user_id role : Option String) → Store → Store × Reply (String × ℕ)
login token now user_id role store =
    if is_missing user_id || is_missing role
    then (store, denied 401 "Missing x-user-id or x-user-role header.")
    else let (store', session) = create token now (or_blank user_id) (or_blank role) store in
      (store', passed (session.token, session.expires_at))

-- `POST /session/logout`, which answers 204.
unfoldable pub logout : ℕ → Option String → Store → Store × Reply SessionUser
logout now header store =
    let (store', reply) = session_auth now header store in
    elim (reply) [
      | denied status message ↦ (store', denied status message)
      | passed user ↦ (delete user.session_token store', passed user)
    ]

-- `GET /session/me`: the user and the role.
unfoldable pub me : ℕ → Option String → Store → Store × Reply (String × String)
me now header store =
    let (store', reply) = session_auth now header store in
    elim (reply) [
      | denied status message ↦ (store', denied status message)
      | passed user ↦ (store', passed (user.id, user.role))
    ]
