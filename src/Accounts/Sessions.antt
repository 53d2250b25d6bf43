-- ===== src/Accounts/Sessions.antt =====
-- The session that a login opens, as the two middlewares see it.
use text.Mathlib.TextPositions.{eq_refl}
use implement_offering_valid.Common.{
  ℕ, zero, suc, keep, length, Bool, Bool-cases, inl, inr, ◌+◌, ◌≤◌, String, ◌≡◌, refl, ◌∙◌, true,
  false, not, Option, none, some, List, [], ◌∷◌, ◌++◌, arith, if◌then◌else◌, str_eq, is_empty, ltb,
}
use implement_offering_valid.Refresh.{
  Session, find_by_id, create_session, RefreshTokenPayload, Tokens, refresh_ttl,
}
use implement_offering_valid.Refresh.Reuse.{find_by_id-append}
use implement_offering_valid.Claims.{JwtPayload, Checked, fine}
use implement_offering_valid.Access.{passed, denied, bearer_token}
use implement_offering_valid.Access.Tokens.{require_auth_with_session, require_auth}
use implement_offering_valid.Accounts.{User, Crypto, find_by_email}
use implement_offering_valid.Accounts.Login.{
  is_gone, delete_where, delete_session_by_id, verify_login_password, logged_in, open_session,
  login,
}

picked-is_gone :
    (p : Session → Bool) (n : ℕ) (all : List Session) (r : Session)
    → p r ≡ true
    → is_gone p n all r ≡ true
unfolding is_gone
picked-is_gone p zero all r h = h
picked-is_gone p (suc n) all r h = rw (h, is_gone) refl

none_kept :
    (id : String) (n : ℕ) (all rows : List Session)
    → find_by_id id (keep (λ r. not (is_gone (λ r. str_eq r.id id) n all r)) rows) ≡ none
unfolding find_by_id
none_kept id n all [] = refl
none_kept id n all (r ∷ rows) = elim (Bool-cases (is_gone (λ r. str_eq r.id id) n all r)) [
  | inl e ↦ rw e (none_kept id n all rows)
  | inr e ↦ elim (Bool-cases (str_eq r.id id)) [
    | inl f ↦ let gone = picked-is_gone (λ r. str_eq r.id id) n all r f in absurd (cc)
    | inr f ↦ rw (e, f) (none_kept id n all rows)
  ]
]

pub deleted :
    (id : String) (rows : List Session) → find_by_id id (delete_session_by_id id rows) ≡ none
unfolding delete_session_by_id delete_where
deleted id rows = none_kept id (length rows) rows rows

-- The row of a session that a login opens.
abbrev pub session_of : Crypto → (RefreshTokenPayload → Tokens) → ℕ → String → User → Session
session_of crypto sign now session_id u = record {
  id = session_id;
  user_id = u.id;
  token_hash =
      crypto.sha256
        (sign (record { user_id = u.id; session_id = session_id; role = u.role })).refresh_token;
  expires_at = now + refresh_ttl;
  created_at = now;
  parent_id = none;
  revoked_at = none;
}

pub open_session_lem :
    (crypto : Crypto) (sign : RefreshTokenPayload → Tokens) (now : ℕ) (session_id : String)
    (u : User) (sessions : List Session)
    → is_empty session_id ≡ false
    → find_by_id session_id sessions ≡ none
    → open_session crypto sign now session_id u sessions ≡ (
      sessions ++ session_of crypto sign now session_id u ∷ [],
      logged_in
          (sign (record { user_id = u.id; session_id = session_id; role = u.role }))
          u.id
          u.email
          u.role,
    )
unfolding open_session create_session
open_session_lem crypto sign now session_id u sessions g h =
    rw (open_session, create_session, g, h) refl

pub login_lem :
    (crypto : Crypto) (sign : RefreshTokenPayload → Tokens) (now : ℕ)
    (session_id email password : String) (u : User) (users : List User) (sessions : List Session)
    → find_by_email email users ≡ some u
    → verify_login_password crypto password u.password_hash ≡ true
    → login crypto sign now session_id email password users sessions
      ≡ open_session crypto sign now session_id u sessions
unfolding login
login_lem crypto sign now session_id email password u users sessions f v = rw (login, f, v) refl

pub opened :
    (crypto : Crypto) (sign : RefreshTokenPayload → Tokens) (now : ℕ)
    (session_id email password : String) (u : User) (users : List User) (sessions : List Session)
    → find_by_email email users ≡ some u
    → verify_login_password crypto password u.password_hash ≡ true
    → is_empty session_id ≡ false
    → find_by_id session_id sessions ≡ none
    → find_by_id session_id (login crypto sign now session_id email password users sessions).0
      ≡ some (session_of crypto sign now session_id u)
opened crypto sign now session_id email password u users sessions f v g h =
    rw
      (
        login_lem crypto sign now session_id email password u users sessions f v,
        open_session_lem crypto sign now session_id u sessions g h,
        find_by_id-append session_id (session_of crypto sign now session_id u) sessions,
        h,
        eq_refl session_id,
      )
      refl

-- A payload names the user and the session.
abbrev pub Names : JwtPayload → String → String → Type 0
Names p user_id session_id = (p.sub ≡ some user_id) × (p.sid ≡ some session_id)

pub with_session_passes :
    (verify : String → Checked JwtPayload) (now : ℕ) (rows : List Session) (header : Option String)
    (token session_id user_id : String) (p : JwtPayload) (s : Session)
    → bearer_token header ≡ some token
    → verify token ≡ fine p
    → Names p user_id session_id
    → is_empty session_id ≡ false
    → find_by_id session_id rows ≡ some s
    → s.revoked_at ≡ none
    → ltb s.expires_at now ≡ false
    → require_auth_with_session verify now rows header
      ≡ passed (record { user_id = user_id; session_id = session_id; role = p.role })
unfolding require_auth_with_session
with_session_passes verify now rows header token session_id user_id p s b v (sub, sid) g f r e =
    rw (require_auth_with_session, b, v, sid, g, f, r, e, sid, sub) refl

pub with_session_refuses :
    (verify : String → Checked JwtPayload) (now : ℕ) (rows : List Session) (header : Option String)
    (token session_id user_id : String) (p : JwtPayload)
    → bearer_token header ≡ some token
    → verify token ≡ fine p
    → Names p user_id session_id
    → is_empty session_id ≡ false
    → find_by_id session_id rows ≡ none
    → require_auth_with_session verify now rows header ≡ denied 401 "Session not found"
unfolding require_auth_with_session
with_session_refuses verify now rows header token session_id user_id p b v (sub, sid) g f =
    rw (require_auth_with_session, b, v, sid, g, f) refl

require_auth_compares :
    (verify : String → Checked JwtPayload) (hash : String → String) (now : ℕ) (rows : List Session)
    (header : Option String) (token session_id user_id : String) (p : JwtPayload) (s : Session)
    → bearer_token header ≡ some token
    → verify token ≡ fine p
    → Names p user_id session_id
    → is_empty session_id ≡ false
    → is_empty user_id ≡ false
    → find_by_id session_id rows ≡ some s
    → s.user_id ≡ user_id
    → ltb s.expires_at now ≡ false
    → require_auth verify hash now rows header ≡ (
        if not (str_eq (hash token) s.token_hash)
        then denied 401 "Unauthorized: token mismatch"
        else passed (record { user_id = user_id; session_id = session_id; role = p.role }))
unfolding require_auth
require_auth_compares verify hash now rows header token session_id user_id p s b v (sub, sid) g k f
      o e =
    rw (require_auth, b, v, sub, sid, k, g, f, o, sub, eq_refl user_id, e, sid) refl

abbrev pub tokens_of : (RefreshTokenPayload → Tokens) → String → User → Tokens
tokens_of sign session_id u =
    sign (record { user_id = u.id; session_id = session_id; role = u.role })

-- What the login of a user with a new session id gives: the user is found and the password verified.
abbrev pub LogsIn : Crypto → String → String → String → User → List User → List Session → Type 0
LogsIn crypto session_id email password u users sessions =
    (find_by_email email users ≡ some u)
    × (verify_login_password crypto password u.password_hash ≡ true)
    × (is_empty session_id ≡ false)
    × (find_by_id session_id sessions ≡ none)

module _ (crypto : Crypto) (sign : RefreshTokenPayload → Tokens)
    (verify : String → Checked JwtPayload) where
  -- The middleware of `auth.ts` takes the wrong token of the two: after a login, it refuses the access
  -- token, unless its hash is that of the refresh token, and lets the refresh token pass.
  pub access_token_refused :
      (now later : ℕ) (session_id email password : String) (u : User) (users : List User)
      (sessions : List Session) (p q : JwtPayload) (header other : Option String)
      → LogsIn crypto session_id email password u users sessions
      → verify (tokens_of sign session_id u).access_token ≡ fine p
      → verify (tokens_of sign session_id u).refresh_token ≡ fine q
      → Names p u.id session_id
      → Names q u.id session_id
      → is_empty u.id ≡ false
      → bearer_token header ≡ some (tokens_of sign session_id u).access_token
      → bearer_token other ≡ some (tokens_of sign session_id u).refresh_token
      → str_eq
          (crypto.sha256 (tokens_of sign session_id u).access_token)
          (crypto.sha256 (tokens_of sign session_id u).refresh_token)
        ≡ false
      → later ≤ now + refresh_ttl
      → let sessions' = (login crypto sign now session_id email password users sessions).0 in
        (require_auth verify crypto.sha256 later sessions' header
          ≡ denied 401 "Unauthorized: token mismatch")
        × (require_auth verify crypto.sha256 later sessions' other
            ≡ passed (record { user_id = u.id; session_id = session_id; role = q.role }))
  access_token_refused now later session_id email password u users sessions p q header other
        (f, v, g, h) t r n m k b c d l =
      let sessions' = (login crypto sign now session_id email password users sessions).0 in
      let here = opened crypto sign now session_id email password u users sessions f v g h in
      (
        require_auth_compares verify crypto.sha256 later sessions' header _ session_id u.id p _ b t
              n g k here refl (ground arith)
            ∙ rw d refl,
        require_auth_compares verify crypto.sha256 later sessions' other _ session_id u.id q _ c r m
              g k here refl (ground arith)
            ∙ rw (eq_refl (crypto.sha256 (tokens_of sign session_id u).refresh_token)) refl,
      )
