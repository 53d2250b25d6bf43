-- ===== src/Refresh.antt =====
-- Rotation of refresh tokens (src/auth/refresh: refreshService.ts, types.ts, repositoryAdapter.ts) over
-- the sessions table (src/db/repositories/sessionRepository.ts). A query is the operation on the rows
-- that its SQL spells; an INSERT of an id that is taken throws. The clock and the new id are arguments.
pub mod Reuse
pub mod Revocation
mod Tests
use implement_offering_valid.Common.{
  ℕ, zero, suc, ◌+◌, String, Bool, true, false, Option, none, some, List, [], ◌∷◌, ◌++◌,
  if◌then◌else◌, str_eq, is_missing, is_empty, length,
}

pub record Session : Type 0 where
  pub id : String
  pub user_id : String
  pub token_hash : String
  pub expires_at : ℕ
  pub created_at : ℕ
  pub parent_id : Option String
  pub revoked_at : Option ℕ

pub record CreateSessionInput : Type 0 where
  pub id : Option String
  pub user_id : String
  pub token_hash : String
  pub expires_at : ℕ
  pub parent_id : Option String

-- `SELECT * FROM sessions WHERE id = $1 LIMIT 1`
unfoldable pub find_by_id : String → List Session → Option Session
find_by_id id [] = none
find_by_id id (r ∷ rs) = if str_eq r.id id then some r else find_by_id id rs

abbrev pub is_child_of : String → Session → Bool
is_child_of parent r = elim (r.parent_id) [ none ↦ false | some p ↦ str_eq p parent ]

-- `SELECT * FROM sessions WHERE parent_id = $1 LIMIT 1`
unfoldable pub find_by_parent_id : String → List Session → Option Session
find_by_parent_id parent [] = none
find_by_parent_id parent (r ∷ rs) =
    if is_child_of parent r then some r else find_by_parent_id parent rs

abbrev pub insert_row : Session → List Session → Option (List Session)
insert_row r rows = elim (find_by_id r.id rows) [ none ↦ some (rows ++ r ∷ []) | some _ ↦ none ]

abbrev or_blank : Option String → String
or_blank none = ""
or_blank (some s) = s

-- `input.parent_id || null`
abbrev or_null : Option String → Option String
or_null p = if is_missing p then none else p

-- The first branch's INSERT names no `parent_id`. `fresh` is `crypto.randomUUID()`.
unfoldable pub create_session :
    ℕ → String → CreateSessionInput → List Session → Option (List Session)
create_session now fresh input rows =
    if is_missing input.id
    then insert_row
        (record {
          id = fresh;
          user_id = input.user_id;
          token_hash = input.token_hash;
          expires_at = input.expires_at;
          created_at = now;
          parent_id = or_null input.parent_id;
          revoked_at = none;
        })
        rows
    else insert_row
        (record {
          id = or_blank input.id;
          user_id = input.user_id;
          token_hash = input.token_hash;
          expires_at = input.expires_at;
          created_at = now;
          parent_id = none;
          revoked_at = none;
        })
        rows

unfoldable pub has_id : List String → String → Bool
has_id [] x = false
has_id (i ∷ is) x = if str_eq i x then true else has_id is x

abbrev pub has_parent_in : List String → Session → Bool
has_parent_in ids r = elim (r.parent_id) [ none ↦ false | some p ↦ has_id ids p ]

-- The recursive term of the query: `JOIN descendants d ON s.parent_id = d.id`.
unfoldable pub children : List String → List Session → List String
children ids [] = []
children ids (r ∷ rs) =
    let rest = children ids rs in if has_parent_in ids r then r.id ∷ rest else rest

-- `WITH RECURSIVE descendants`, for a number of generations.
unfoldable pub descendants : ℕ → List String → List Session → List String
descendants zero ids rows = ids
descendants (suc n) ids rows = ids ++ descendants n (children ids rows) rows

-- `SET revoked_at = NOW()`, of a row `WHERE revoked_at IS NULL`.
abbrev pub revoke_row : ℕ → Session → Session
revoke_row now r = elim (r.revoked_at) [ none ↦ record r { revoked_at = some now } | some t ↦ r ]

unfoldable pub mark_revoked : ℕ → List String → List Session → List Session
mark_revoked now ids [] = []
mark_revoked now ids (r ∷ rs) =
    (if has_id ids r.id then revoke_row now r else r) ∷ mark_revoked now ids rs

-- As many generations as there are rows: a parent is inserted first.
unfoldable pub revoke_session_and_descendants : ℕ → String → List Session → List Session
revoke_session_and_descendants now id rows = elim (find_by_id id rows) [
  | none ↦ rows
  | some r ↦ mark_revoked now (descendants (length rows) (id ∷ []) rows) rows
]

-- `RefreshTokenRepository`, over a state `S`; `none` where `createSession` throws.
pub record RefreshTokenRepository (S : Type 0) : Type 0 where
  pub find_session_by_id : String → S → Option Session
  pub create_session : ℕ → CreateSessionInput → S → Option S
  pub revoke_session_and_descendants : ℕ → String → S → S
  pub find_session_by_parent_id : String → S → Option Session

-- `RefreshTokenRepositoryAdapter`
abbrev pub session_repository : String → RefreshTokenRepository (List Session)
session_repository fresh = record {
  find_session_by_id = find_by_id;
  create_session = λ now input rows. create_session now fresh input rows;
  revoke_session_and_descendants = revoke_session_and_descendants;
  find_session_by_parent_id = find_by_parent_id;
}

pub record RefreshTokenPayload : Type 0 where
  pub user_id : String
  pub session_id : String
  pub role : String

pub record Tokens : Type 0 where
  pub access_token : String
  pub refresh_token : String

-- `TokenService`; `none` where `verifyRefreshToken` throws.
pub record TokenService : Type 0 where
  pub verify_refresh_token : String → Option RefreshTokenPayload
  pub issue_tokens : RefreshTokenPayload → Tokens
  pub hash_token : String → String

pub data Answer : Type 0 where
  null thrown : Answer
  tokens : Tokens → Answer

-- Seven days.
abbrev pub refresh_ttl : ℕ
refresh_ttl = 604_800_000

module _ {S : Type 0} (repository : RefreshTokenRepository S) (service : TokenService) where
  -- Steps 5 and 6.
  unfoldable pub rotate : ℕ → String → RefreshTokenPayload → S → S × Answer
  rotate now new_id payload s =
      let issued =
        service.issue_tokens
          (record { user_id = payload.user_id; session_id = new_id; role = payload.role }) in
      let input : CreateSessionInput = record {
        id = some new_id;
        user_id = payload.user_id;
        token_hash = service.hash_token issued.refresh_token;
        expires_at = now + refresh_ttl;
        parent_id = some payload.session_id;
      } in
      elim (repository.create_session now input s) [
        | none ↦ (s, thrown)
        | some s' ↦ (s', tokens issued)
      ]

  abbrev revoke_all : ℕ → String → S → S × Answer
  revoke_all now id s = (repository.revoke_session_and_descendants now id s, null)

  -- Steps 2 to 6.
  unfoldable pub refresh_payload : ℕ → String → RefreshTokenPayload → S → S × Answer
  refresh_payload now new_id payload s = elim (repository.find_session_by_id payload.session_id s) [
    | none ↦ (s, null)
    | some session ↦ elim (session.revoked_at) [
      | some t ↦ revoke_all now payload.session_id s
      | none ↦ elim (repository.find_session_by_parent_id payload.session_id s) [
        | some child ↦ revoke_all now payload.session_id s
        | none ↦ rotate now new_id payload s
      ]
    ]
  ]

  unfoldable pub refresh : ℕ → String → String → S → S × Answer
  refresh now new_id token s = elim (service.verify_refresh_token token) [
    | none ↦ (s, null)
    | some payload ↦ refresh_payload now new_id payload s
  ]
