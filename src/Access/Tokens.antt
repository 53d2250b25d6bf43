-- ===== src/Access/Tokens.antt =====
-- Authentication by tokens: src/middleware/auth.ts and src/middleware/authWithSession.ts over the
-- sessions table. `verify` is `verifyToken` with its secret and clock, `hash` the SHA-256 of a text in
-- hex.
use Prim.Native.String
use implement_offering_valid.Common.{
  ℕ, ◌/◌, String, Bool, true, false, ◌||◌, not, Option, none, some, List, ltb, if◌then◌else◌,
  str_eq, is_missing, ℤ, pos, ltb_ℤ, before, after,
}
use implement_offering_valid.Refresh.{Session, find_by_id}
use implement_offering_valid.Claims.{
  JwtPayload, TokenError, secret_missing, secret_short, token_expired, not_verified, claim_refused,
  Checked, raised, fine,
}
use implement_offering_valid.Access.{Reply, passed, denied, or_blank, bearer_token}

-- The claims that the middlewares put into the request.
pub record AuthContext : Type 0 where
  pub user_id : String
  pub session_id : String
  pub role : Option String

abbrev is_expired : ℕ → Session → Bool
is_expired now session = ltb session.expires_at now

abbrev is_set : Option ℕ → Bool
is_set none = false
is_set (some t) = true

-- `createRequireAuthWithSession`; where the token is verified, its `sub` is there.
unfoldable pub require_auth_with_session :
    (String → Checked JwtPayload) → ℕ → List Session → Option String → Reply AuthContext
require_auth_with_session verify now sessions header = elim (bearer_token header) [
  | none ↦ denied 401 "Missing or invalid token"
  | some token ↦ elim (verify token) [
    | raised e ↦ denied 401 "Invalid or expired token"
    | fine payload ↦
        if is_missing payload.sid
        then denied 401 "Token missing session identifier"
        else elim (find_by_id (or_blank payload.sid) sessions) [
          | none ↦ denied 401 "Session not found"
          | some session ↦
              if is_set session.revoked_at
              then denied 401 "Session has been revoked"
              else if is_expired now session
              then denied 401 "Session has expired"
              else passed (record {
                user_id = or_blank payload.sub;
                session_id = or_blank payload.sid;
                role = payload.role;
              })
        ]
  ]
]

-- `createRequireAuth`
unfoldable pub require_auth :
    (String → Checked JwtPayload)
    → (hash : String → String) → ℕ
    → List Session
    → Option String
    → Reply AuthContext
require_auth verify hash now sessions header = elim (bearer_token header) [
  | none ↦ denied 401 "Unauthorized: Missing or invalid Authorization header"
  | some token ↦ elim (verify token) [
    | raised e ↦ denied 401 "Unauthorized: invalid or expired token"
    | fine payload ↦
        if is_missing payload.sub || is_missing payload.sid
        then denied 401 "Unauthorized: token missing subject or session"
        else elim (find_by_id (or_blank payload.sid) sessions) [
          | none ↦ denied 401 "Unauthorized: session not found or user mismatch"
          | some session ↦
              if not (str_eq session.user_id (or_blank payload.sub))
              then denied 401 "Unauthorized: session not found or user mismatch"
              else if is_expired now session
              then denied 401 "Unauthorized: session expired"
              else if not (str_eq (hash token) session.token_hash)
              then denied 401 "Unauthorized: token mismatch"
              else passed (record {
                user_id = or_blank payload.sub;
                session_id = or_blank payload.sid;
                role = payload.role;
              })
        ]
  ]
]

-- The code of a blank, and of a full stop.
abbrev blank : ℕ
blank = 32

abbrev full_stop : ℕ
full_stop = 46

abbrev is_dotted : String → Bool
is_dotted s = elim (after full_stop s) [ none ↦ false | some rest ↦ true ]

-- `split(' ')` in two parts, the first of which is `Bearer`.
abbrev pub second_part : String → Option String
second_part header = elim (after blank header) [
  | none ↦ none
  | some rest ↦ elim (after blank rest) [
    | some more ↦ none
    | none ↦ if str_eq (before blank header) "Bearer" then some rest else none
  ]
]

-- By the error's name: an expired token's is `Error`, as `verifyToken` throws it anew.
abbrev error_message : TokenError → String
error_message (not_verified name) =
    if str_eq name "JsonWebTokenError"
    then "Invalid token signature"
    else "Invalid or expired token"
error_message secret_missing = "Invalid or expired token"
error_message secret_short = "Invalid or expired token"
error_message token_expired = "Invalid or expired token"
error_message (claim_refused e) = "Invalid or expired token"

unfoldable pub auth_middleware : (String → Checked JwtPayload) → Option String → Reply JwtPayload
auth_middleware verify header =
    if is_missing header
    then denied 401 "Authorization header missing"
    else elim (second_part (or_blank header)) [
      | none ↦ denied 401 "Invalid authorization header format. Expected: Bearer <token>"
      | some token ↦ elim (verify token) [
        | fine payload ↦ passed payload
        | raised e ↦ denied 401 (error_message e)
      ]
    ]

-- `req.user`, which may be undefined.
unfoldable pub optional_auth_middleware :
    (String → Checked JwtPayload) → Option String → Option JwtPayload
optional_auth_middleware verify header =
    if is_missing header then none else elim (second_part (or_blank header)) [
      | none ↦ none
      | some token ↦ elim (verify token) [ fine payload ↦ some payload | raised e ↦ none ]
    ]

pub record JwtPayloadInternal : Type 0 where
  pub sub : String
  pub role : String
  pub exp : Option ℤ

abbrev is_over : Option ℤ → ℕ → Bool
is_over none now = false
is_over (some t) now = ltb_ℤ t (pos (now / 1000))

-- `verifyJwt`: `sign` is the HMAC in base64url, `parse` decodes and parses the payload; `none` where
-- it throws.
unfoldable pub verify_jwt :
    (sign : String → String → String)
    → (parse : String → Option JwtPayloadInternal) → ℕ
    → String
    → String
    → Option JwtPayloadInternal
verify_jwt sign parse now token secret = elim (after full_stop token) [
  | none ↦ none
  | some rest ↦ elim (after full_stop rest) [
    | none ↦ none
    | some signature ↦
        let header = before full_stop token in
        let payload = before full_stop rest in
        if is_dotted signature
        then none
        else if not (str_eq (sign secret (String.◌++◌ header (String.◌++◌ "." payload))) signature)
        then none
        else elim (parse payload) [
          | none ↦ none
          | some p ↦ if is_over p.exp now then none else some p
        ]
  ]
]

unfoldable pub require_investor :
    (sign : String → String → String)
    → (parse : String → Option JwtPayloadInternal) → (secret : Option String) → ℕ
    → Option String
    → Reply (String × String)
require_investor sign parse secret now header = elim (bearer_token header) [
  | none ↦ denied 401 "Missing or invalid Authorization header"
  | some token ↦
      if is_missing secret
      then denied 500 "Server configuration error"
      else elim (verify_jwt sign parse now token (or_blank secret)) [
        | none ↦ denied 401 "Invalid or expired token"
        | some p ↦
            if not (str_eq p.role "investor")
            then denied 403 "Forbidden: investor role required"
            else passed (p.sub, "investor")
      ]
]

unfoldable pub require_issuer_auth : Option String → Reply (String × String)
require_issuer_auth issuer_id =
    if is_missing issuer_id
    then denied 401 "Unauthorized: Missing Issuer ID"
    else passed (or_blank issuer_id, "issuer")
