-- ===== src/Access/Tests.antt =====
-- Sessions and tokens at concrete requests.
use implement_offering_valid.Common.{
  ◌+◌, ◌≤◌, ◌<◌, String, ◌≡◌, refl, Option, some, arith, drop_chars, before, after, pos,
}
use implement_offering_valid.Session.{new_store}
use implement_offering_valid.Access.{passed, denied, bearer_token, session_auth, login, logout, me}
use implement_offering_valid.Access.Tokens.{JwtPayloadInternal, verify_jwt, require_investor}
use implement_offering_valid.Access.Registry.{session_lasts}

token_of_header : bearer_token (some "Bearer t1") ≡ some "t1"
unfolding drop_chars
token_of_header = refl

basic_is_refused :
    (session_auth 1 (some "Basic t1") (new_store 100 0)).1
    ≡ denied 401 "Missing or malformed Authorization header."
unfolding session_auth
basic_is_refused = refl

abbrev sign : String → String → String
sign secret content = secret

abbrev parse : String → Option JwtPayloadInternal
parse s = some (record { sub = s; role = "investor"; exp = some (pos 5) })

investor_passes :
    require_investor sign parse (some "sig") 4_000 (some "Bearer h.p.sig")
    ≡ passed ("p", "investor")
unfolding require_investor verify_jwt drop_chars before after
investor_passes = refl

late_investor_is_refused :
    require_investor sign parse (some "sig") 6_000 (some "Bearer h.p.sig")
    ≡ denied 401 "Invalid or expired token"
unfolding require_investor verify_jwt drop_chars before after
late_investor_is_refused = refl

within : 60 < 10 + (new_store 100 0).ttl_ms
unfolding new_store
within = omega arith

beyond : 10 + (new_store 100 0).ttl_ms ≤ 110
unfolding new_store
beyond = omega arith

session_lasts_example :
    let store' = (login "t1" 10 (some "ann") (some "investor") (new_store 100 0)).0 in
    ((me 60 (some "Bearer t1") store').1 ≡ passed ("ann", "investor"))
    × ((me 110 (some "Bearer t1") store').1 ≡ denied 401 "Session not found or expired.")
    × ((me 70 (some "Bearer t1") (logout 60 (some "Bearer t1") store').0).1
        ≡ denied 401 "Session not found or expired.")
session_lasts_example =
    session_lasts "t1" "ann" "investor" 10 60 110 70 (some "Bearer t1") (new_store 100 0) refl refl
      token_of_header within beyond
