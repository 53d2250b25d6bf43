-- ===== src/Session/Lookup.antt =====
-- What a token gives back: creation, expiry, extension and deletion of a session.
use mathlib.Core.Option
use implement_offering_valid.Common.{
  ℕ, ◌+◌, String, ◌≡◌, Bool, true, false, Option, none, some, arith, eq_iff, str_eq, if◌then◌else◌,
  ltb, lookup, lookup-insert, lookup-erase, Option-cases, inl, inr,
}
use implement_offering_valid.Session.{Session, Store, create, get, touch, delete}

-- What may be answered where a stored session was found: nothing once its expiry is reached.
abbrev pub live : ℕ → Option Session → Option Session
live now none = none
live now (some x) = if ltb now x.expires_at then some x else none

abbrev pub is_found : Option Session → Bool
is_found none = false
is_found (some x) = true

-- `get` answers the stored session if the clock is before its expiry, and null otherwise. It changes
-- the answer for no other token, and leaves nothing under a token that it answers with null.
pub get_lem :
    (now : ℕ) (token j : String) (s : Store)
    → let (s', found) = get now token s in
      (found ≡ live now (lookup token s.sessions))
      × (lookup j s'.sessions ≡ (if str_eq token j then found else lookup j s.sessions))
unfolding get
get_lem now token j s = elim (Option-cases (lookup token s.sessions)) [
  | inl e ↦ (ground arith, ground (arith, eq_iff token j))
  | inr (y, e) ↦ (ground arith, ground (arith, lookup-erase token j s.sessions, eq_iff token j))
]

-- A session just created at `t` is found under its token at every time before `t + ttl_ms` and at
-- none from then on, and every other token answers what it answered before.
pub get-create :
    (t now : ℕ) (token user role j : String) (s : Store)
    → let (s', x) = create token t user role s in
      ((get now token s').1 ≡ (if ltb now (t + s.ttl_ms) then some x else none))
      × (lookup j s'.sessions ≡ (if str_eq token j then some x else lookup j s.sessions))
unfolding get create
get-create t now token user role j s =
    let x = (create token t user role s).1 in
    (
      ground (arith, lookup-insert token token x s.sessions, eq_iff token token),
      ground (arith, lookup-insert token j x s.sessions),
    )

-- `touch` answers true exactly for a session that had not expired when it was checked. Such a
-- session then expires `ttl_ms` after the later clock reading and keeps its user, its role and its
-- creation time; an expired one is removed. No other token is touched.
pub touch_lem :
    (checked now : ℕ) (token j : String) (s : Store)
    → let (s', done) = touch checked now token s in
      let found = live checked (lookup token s.sessions) in
      (done ≡ is_found found)
      × (lookup j s'.sessions ≡ (
          if str_eq token j
          then Option.map {A = Session}
              (λ x. record x { expires_at = now + s.ttl_ms; last_seen_at = now })
              found
          else lookup j s.sessions))
unfolding touch
touch_lem checked now token j s = elim (Option-cases (lookup token s.sessions)) [
  | inl e ↦ (ground arith, ground (arith, eq_iff token j))
  | inr (y, e) ↦
      let moved : Session = record y { expires_at = now + s.ttl_ms; last_seen_at = now } in
      (
        ground arith,
        ground (
          arith,
          lookup-insert token j moved s.sessions,
          lookup-erase token j s.sessions,
          eq_iff token j,
        ),
      )
]

-- After `delete` the token is unknown to `get` at every time, whatever it held.
pub get-delete : (now : ℕ) (token : String) (s : Store) → (get now token (delete token s)).1 ≡ none
unfolding get delete
get-delete now token s = ground (arith, lookup-erase token token s.sessions, eq_iff token token)
