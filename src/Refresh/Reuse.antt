-- ===== src/Refresh/Reuse.antt =====
-- A refresh token that is presented twice.
use implement_offering_valid.Common.{
  ℕ, ◌+◌, String, ◌≡◌, refl, none, some, List, [], ◌∷◌, ◌++◌, arith, if◌then◌else◌, str_eq,
}
use implement_offering_valid.Refresh.{
  Session, find_by_id, find_by_parent_id, RefreshTokenPayload, Tokens, TokenService,
}

pub find_by_id-append :
    (x : String) (r : Session) (rows : List Session)
    → find_by_id x (rows ++ r ∷ [])
      ≡ elim (find_by_id x rows) [ some s ↦ some s | none ↦ if str_eq r.id x then some r else none ]
unfolding find_by_id
find_by_id-append x r [] = refl
find_by_id-append x r (s ∷ rows) = ground (arith, find_by_id-append x r rows)

-- `IsRotatable payload rows`: the session is there, is not revoked and has no child.
abbrev pub IsRotatable : RefreshTokenPayload → List Session → Type 0
IsRotatable payload rows =
    ((s : Session) × (find_by_id payload.session_id rows ≡ some s) × (s.revoked_at ≡ none))
    × (find_by_parent_id payload.session_id rows ≡ none)

abbrev issued_for : TokenService → RefreshTokenPayload → String → Tokens
issued_for service payload new_id =
    service.issue_tokens
      (record { user_id = payload.user_id; session_id = new_id; role = payload.role })

-- The row that a refresh inserts: without a parent.
abbrev new_row : TokenService → ℕ → RefreshTokenPayload → String → Session
new_row service now payload new_id = record {
  id = new_id;
  user_id = payload.user_id;
  token_hash = service.hash_token (issued_for service payload new_id).refresh_token;
  expires_at = now + 604_800_000;
  created_at = now;
  parent_id = none;
  revoked_at = none;
}
