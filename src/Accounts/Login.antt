-- ===== src/Accounts/Login.antt =====
-- Login and logout (src/auth/login: loginService.ts, loginHandler.ts, the adapters; src/auth/logout:
-- logoutService.ts, logoutHandler.ts) over the users and the sessions, with the operations of the
-- sessions table that delete or overwrite rows (src/db/repositories/sessionRepository.ts).
use Prim.Native.String.{len}
use implement_offering_valid.Common.{
  ℕ, zero, suc, length, ◌+◌, String, Bool, true, false, ◌||◌, not, Option, none, some, List, [],
  ◌∷◌, ◌==◌, if◌then◌else◌, str_eq, is_missing, keep,
}
use implement_offering_valid.Refresh.{
  Session, find_by_id, create_session, RefreshTokenPayload, Tokens, refresh_ttl,
}
use implement_offering_valid.Accounts.{User, Crypto, find_by_email, or_blank}

-- Whether a DELETE of the rows that `p` picks takes a row with it: `ON DELETE CASCADE` of `parent_id`
-- deletes the children of a deleted row. A line of ancestors has no more rows than the table.
unfoldable pub is_gone : (Session → Bool) → ℕ → List Session → Session → Bool
is_gone p zero rows r = p r
is_gone p (suc n) rows r = if p r then true else elim (r.parent_id) [
  | none ↦ false
  | some parent ↦ elim (find_by_id parent rows) [ none ↦ false | some q ↦ is_gone p n rows q ]
]

unfoldable pub delete_where : (Session → Bool) → List Session → List Session
delete_where p rows = keep (λ r. not (is_gone p (length rows) rows r)) rows

-- `DELETE FROM sessions WHERE id = $1`
unfoldable pub delete_session_by_id : String → List Session → List Session
delete_session_by_id id rows = delete_where (λ r. str_eq r.id id) rows

-- `DELETE FROM sessions WHERE user_id = $1`
unfoldable pub delete_all_sessions_by_user_id : String → List Session → List Session
delete_all_sessions_by_user_id user_id rows = delete_where (λ r. str_eq r.user_id user_id) rows

unfoldable pub set_session_metadata : String → String → ℕ → List Session → List Session
set_session_metadata id token_hash expires_at [] = []
set_session_metadata id token_hash expires_at (r ∷ rs) =
    (if str_eq r.id id then record r { token_hash = token_hash; expires_at = expires_at } else r)
    ∷ set_session_metadata id token_hash expires_at rs

-- The second of the two methods of the name, as JavaScript takes it.
unfoldable pub create_session_for_user :
    ℕ → String → String → String → String → ℕ → List Session → Option (List Session)
create_session_for_user now fresh user_id id token_hash expires_at rows =
    create_session now fresh
      (record {
        id = some id;
        user_id = user_id;
        token_hash = token_hash;
        expires_at = expires_at;
        parent_id = none;
      })
      rows

-- Both digests as bytes: of two lengths, they are not compared.
unfoldable pub verify_login_password : Crypto → String → String → Bool
verify_login_password crypto plaintext stored =
    let candidate = crypto.sha256 plaintext in
    if not (len candidate == len stored) then false else str_eq candidate stored

pub data LoginResult : Type 0 where
  null thrown : LoginResult
  logged_in : Tokens → (id email role : String) → LoginResult

module _ (crypto : Crypto) (sign : RefreshTokenPayload → Tokens) where
  -- Steps 4 and 5, of a user whose password is verified; seven days of 24 hours.
  unfoldable pub open_session : ℕ → String → User → List Session → List Session × LoginResult
  open_session now session_id u sessions =
      let tokens = sign (record { user_id = u.id; session_id = session_id; role = u.role }) in
      elim (create_session now session_id
        (record {
          id = some session_id;
          user_id = u.id;
          token_hash = crypto.sha256 tokens.refresh_token;
          expires_at = now + refresh_ttl;
          parent_id = none;
        })
        sessions) [
          | none ↦ (sessions, thrown)
          | some sessions' ↦ (sessions', logged_in tokens u.id u.email u.role)
        ]

  unfoldable pub login :
      ℕ → String → String → String → List User → List Session → List Session × LoginResult
  login now session_id email password users sessions = elim (find_by_email email users) [
    | none ↦ (sessions, null)
    | some u ↦
        if not (verify_login_password crypto password u.password_hash)
        then (sessions, null)
        else open_session now session_id u sessions
  ]

-- The answer of a handler: a status, or `next(error)`.
pub data LoginReply : Type 0 where
  bad_request unauthorized passed_on : LoginReply
  ok : Tokens → (id email role : String) → LoginReply

abbrev login_reply : LoginResult → LoginReply
login_reply null = unauthorized
login_reply thrown = passed_on
login_reply (logged_in t id email role) = ok t id email role

unfoldable pub handle_login :
    Crypto
    → (RefreshTokenPayload → Tokens)
    → ℕ
    → String
    → Option String
    → Option String
    → List User
    → List Session
    → List Session × LoginReply
handle_login crypto sign now session_id email password users sessions =
    if is_missing email || is_missing password
    then (sessions, bad_request)
    else let (sessions', result) =
        login crypto sign now session_id (or_blank email) (or_blank password) users sessions in
      (sessions', login_reply result)

-- The status of `POST /api/auth/logout`; `session_id` is that of `req.auth`.
unfoldable pub handle_logout : Option String → List Session → List Session × ℕ
handle_logout session_id sessions =
    if is_missing session_id
    then (sessions, 401)
    else (delete_session_by_id (or_blank session_id) sessions, 204)
