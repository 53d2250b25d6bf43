-- ===== src/Refresh/Tests.antt =====
-- Refreshes over small tables.
use implement_offering_valid.Common.{
  String, ◌≡◌, refl, Option, none, some, List, [], ◌∷◌, arith, eq_iff,
}
use implement_offering_valid.Refresh.{
  Session, find_by_id, has_id, children, descendants, mark_revoked, revoke_session_and_descendants,
  session_repository, RefreshTokenPayload, TokenService, null, refresh,
}
use implement_offering_valid.Refresh.Revocation.{
  itself, through, revoked_is_refused, IsParentFirst, position,
}

abbrev ann : RefreshTokenPayload
ann = record { user_id = "ann"; session_id = "s1"; role = "investor" }

abbrev service : TokenService
service = record {
  verify_refresh_token = λ token. some ann;
  issue_tokens = λ payload. record { access_token = "at"; refresh_token = payload.session_id };
  hash_token = λ token. token;
}

abbrev row : String → Option String → Session
row id parent = record {
  id = id;
  user_id = "ann";
  token_hash = id;
  expires_at = 9;
  created_at = 1;
  parent_id = parent;
  revoked_at = none;
}

abbrev one_session : List Session
one_session = row "s1" none ∷ []

abbrev family : List Session
family = row "s0" none ∷ row "s1" (some "s0") ∷ []

found_s0 : find_by_id "s0" family ≡ some (row "s0" none)
unfolding find_by_id
found_s0 = refl

found_s1 : find_by_id "s1" family ≡ some (row "s1" (some "s0"))
unfolding find_by_id
found_s1 = refl

-- Revoking the parent reaches the child.
both_revoked :
    revoke_session_and_descendants 7 "s0" family
    ≡ record (row "s0" none) { revoked_at = some 7 }
      ∷ record (row "s1" (some "s0")) { revoked_at = some 7 }
      ∷ []
unfolding revoke_session_and_descendants find_by_id mark_revoked descendants children has_id
both_revoked = refl

family-IsParentFirst : IsParentFirst family
unfolding find_by_id position
family-IsParentFirst x p r f e =
    ground (arith, eq_iff "s0" x, eq_iff "s1" x, eq_iff "s0" p, eq_iff "s1" p)

revoked_is_refused_example :
    (refresh
      (session_repository "u")
      service
      8
      "a"
      "t"
      (revoke_session_and_descendants 7 "s0" family)).1
    ≡ null
revoked_is_refused_example =
    revoked_is_refused service "u" "t" "a" "s0" 7 8 1 ann family (row "s0" none)
      (row "s1" (some "s0")) refl found_s0 found_s1
      (through (row "s1" (some "s0")) found_s1 refl itself) family-IsParentFirst
