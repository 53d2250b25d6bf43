-- ===== src/Access/Registry.antt =====
-- A session from its login to its logout.
use implement_offering_valid.Common.{
  ℕ, ◌+◌, ◌≤◌, ◌<◌, String, ◌≡◌, refl, false, Option, none, some, arith, eq_iff, is_missing, lookup,
  lookup-erase,
}
use implement_offering_valid.Session.{Session, Store, create, get, delete}
use implement_offering_valid.Session.Lookup.{get-create}
use implement_offering_valid.Access.{passed, denied, bearer_token, session_auth, login, logout, me}

-- `answers header token`: the header bears the token.
me_of_get :
    (now : ℕ) (header : Option String) (token : String) (store : Store) (x : Session)
    → bearer_token header ≡ some token
    → (get now token store).1 ≡ some x
    → (me now header store).1 ≡ passed (x.user_id, x.role)
unfolding me session_auth
me_of_get now header token store x b g = rw (me, session_auth, b, g) refl

refused_of_get :
    (now : ℕ) (header : Option String) (token : String) (store : Store)
    → bearer_token header ≡ some token
    → (get now token store).1 ≡ none
    → (me now header store).1 ≡ denied 401 "Session not found or expired."
unfolding me session_auth
refused_of_get now header token store b g = rw (me, session_auth, b, g) refl

login_store :
    (token user role : String) (t : ℕ) (store : Store)
    → is_missing (some user) ≡ false
    → is_missing (some role) ≡ false
    → (login token t (some user) (some role) store).0 ≡ (create token t user role store).0
unfolding login
login_store token user role t store a b = rw (login, a, b) refl

found_in_time :
    (token user role : String) (t now : ℕ) (store : Store)
    → now < t + store.ttl_ms
    → let (store', session) = create token t user role store in
      (get now token store').1 ≡ some session
found_in_time token user role t now store l =
    ground (arith, (get-create t now token user role token store).0)

gone_in_time :
    (token user role : String) (t now : ℕ) (store : Store)
    → t + store.ttl_ms ≤ now
    → (get now token (create token t user role store).0).1 ≡ none
gone_in_time token user role t now store l =
    ground (arith, (get-create t now token user role token store).0)

auth_of_get :
    (now : ℕ) (header : Option String) (token : String) (store : Store) (x : Session)
    → bearer_token header ≡ some token
    → (get now token store).1 ≡ some x
    → session_auth now header store ≡ (
      (get now token store).0,
      passed (record { id = x.user_id; role = x.role; session_token = x.token }),
    )
unfolding session_auth
auth_of_get now header token store x b g = rw (session_auth, b, g) refl

logout_store :
    (now : ℕ) (header : Option String) (token : String) (store : Store) (x : Session)
    → bearer_token header ≡ some token
    → (get now token store).1 ≡ some x
    → x.token ≡ token
    → (logout now header store).0 ≡ delete token (get now token store).0
unfolding logout
logout_store now header token store x b g e =
    let auth = auth_of_get now header token store x b g in rw (logout, auth, auth, e) refl

token-create :
    (token user role : String) (t : ℕ) (store : Store)
    → (create token t user role store).1.token ≡ token
unfolding create
token-create token user role t store = refl

gone_after_delete :
    (later : ℕ) (token : String) (store : Store) → (get later token (delete token store)).1 ≡ none
unfolding get delete
gone_after_delete later token store =
    let erased : lookup token (delete token store).sessions ≡ none =
      ground (arith, lookup-erase token token store.sessions, eq_iff token token) in
    rw (get, erased) refl

-- A session lasts from its login to its logout, and no longer than its time to live: with the token
-- that the login gave, a request before `t + ttl_ms` is answered with the user and the role of the
-- login; one from then on, and any after a logout, is refused.
pub session_lasts :
    (token user role : String) (t now late later : ℕ) (header : Option String) (store : Store)
    → is_missing (some user) ≡ false
    → is_missing (some role) ≡ false
    → bearer_token header ≡ some token
    → now < t + store.ttl_ms
    → t + store.ttl_ms ≤ late
    → let store' = (login token t (some user) (some role) store).0 in
      ((me now header store').1 ≡ passed (user, role))
      × ((me late header store').1 ≡ denied 401 "Session not found or expired.")
      × ((me later header (logout now header store').0).1
          ≡ denied 401 "Session not found or expired.")
unfolding create
session_lasts token user role t now late later header store a b h l m =
    let made = create token t user role store in
    let here = found_in_time token user role t now store l in
    let left =
      logout_store now header token made.0 made.1 h here (token-create token user role t store) in
    rw (login_store token user role t store a b) (
      me_of_get now header token made.0 made.1 h here,
      refused_of_get late header token made.0 h (gone_in_time token user role t late store m),
      rw left (
          refused_of_get later header token _ h
            (gone_after_delete later token (get now token made.0).0)),
    )
