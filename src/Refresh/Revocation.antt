-- ===== src/Refresh/Revocation.antt =====
-- What revoking a session does to the sessions below it.
use text.Mathlib.TextPositions.{eq_refl}
use implement_offering_valid.Common.{
  ℕ, zero, suc, ◌+◌, ◌≤◌, ◌<◌, String, ◌≡◌, refl, ◌≢◌, true, none, some, List, [], ◌∷◌, ◌++◌, arith,
  eq_iff, if◌then◌else◌, str_eq, Option-cases, Bool-cases, inl, inr, length, ap,
}
use implement_offering_valid.Refresh.{
  Session, find_by_id, has_id, has_parent_in, children, descendants, mark_revoked, revoke_row,
  revoke_session_and_descendants, session_repository, RefreshTokenPayload, TokenService, null,
  refresh_payload, refresh,
}

-- `Descends rows n a x`: in `n` generations, by parents, session `x` comes from session `a`.
pub data Descends (rows : List Session) : ℕ → String → String → Type 0 where
  itself : {a : String} → Descends rows zero a a
  through :
      {n : ℕ} {a c x : String} (r : Session)
      → find_by_id c rows ≡ some r
      → r.parent_id ≡ some a
      → Descends rows n c x
      → Descends rows (suc n) a x

has_itself : (a : String) → has_id (a ∷ []) a ≡ true
unfolding has_id
has_itself a = rw (eq_refl a) refl

has_id-append :
    (x : String) (as' bs : List String)
    → has_id (as' ++ bs) x ≡ (if has_id as' x then true else has_id bs x)
unfolding has_id
has_id-append x [] bs = refl
has_id-append x (a ∷ as') bs = ground (arith, has_id-append x as' bs)

has_id-children :
    (ids : List String) (rows : List Session) (a c : String) (r : Session)
    → has_id ids a ≡ true
    → find_by_id c rows ≡ some r
    → r.parent_id ≡ some a
    → has_id (children ids rows) c ≡ true
unfolding has_id find_by_id children
has_id-children ids [] a c r h f p = absurd (cc)
has_id-children ids (s ∷ rows) a c r h f p = elim (Bool-cases (str_eq s.id c)) [
  | inl e ↦
      let same : s ≡ r = ground arith in
      let inside : has_parent_in ids s ≡ true = rw (same, p) h in ground arith
  | inr e ↦ let rest = has_id-children ids rows a c r h (ground arith) p in ground arith
]

has_id-descendants :
    (rows : List Session) (n k : ℕ) (ids : List String) (a x : String)
    → Descends rows k a x
    → k ≤ n
    → has_id ids a ≡ true
    → has_id (descendants n ids rows) x ≡ true
unfolding descendants
has_id-descendants rows zero zero ids a x itself l h = h
has_id-descendants rows (suc n) zero ids a x itself l h =
    rw (has_id-append a ids (descendants n (children ids rows) rows), h) refl
has_id-descendants rows zero (suc k) ids a x (through r f p d) l h = absurd (omega arith)
has_id-descendants rows (suc n) (suc k) ids a x (through {c = c} r f p d) l h =
    let rest =
      has_id-descendants rows n k (children ids rows) c x d (omega arith)
        (has_id-children ids rows a c r h f p) in
    ground (arith, has_id-append x ids (descendants n (children ids rows) rows), rest)

revoke_row-IsRevoked :
    (now : ℕ) (r : Session)
    → ((revoke_row now r).id ≡ r.id) × ((revoke_row now r).revoked_at ≢ none)
revoke_row-IsRevoked now r = elim (Option-cases r.revoked_at) [
  | inl e ↦ rw e (refl, λ h. absurd (cc))
  | inr (t, e) ↦ rw e (refl, λ h. absurd (cc))
]

find_by_id-mark :
    (now : ℕ) (ids : List String) (x : String) (rows : List Session) (r : Session)
    → find_by_id x rows ≡ some r
    → has_id ids x ≡ true
    → find_by_id x (mark_revoked now ids rows) ≡ some (revoke_row now r)
unfolding find_by_id mark_revoked
find_by_id-mark now ids x [] r f h = absurd (cc)
find_by_id-mark now ids x (s ∷ rows) r f h = elim (Bool-cases (str_eq s.id x)) [
  | inl e ↦
      let same : s ≡ r = ground arith in
      let key : s.id ≡ x = (eq_iff s.id x).0 e in
      let inside : has_id ids s.id ≡ true = rw key h in
      rw (inside, (revoke_row-IsRevoked now s).0, e) (ap (λ z. some (revoke_row now z)) same)
  | inr e ↦
      let rest = find_by_id-mark now ids x rows r (ground arith) h in
      let kept : (if has_id ids s.id then revoke_row now s else s).id ≡ s.id =
        elim (Bool-cases (has_id ids s.id)) [
          | inl i ↦ rw i (revoke_row-IsRevoked now s).0
          | inr i ↦ rw i refl
        ] in
      rw (kept, e) rest
]

-- The place of the first row with an id; past the last row where there is none.
unfoldable pub position : String → List Session → ℕ
position x [] = 0
position x (r ∷ rows) = if str_eq r.id x then 0 else suc (position x rows)

-- A session stands behind its parent, as the foreign key of `parent_id` lets rows be inserted.
abbrev pub IsParentFirst : List Session → Type 0
IsParentFirst rows =
    (x p : String) (r : Session)
    → find_by_id x rows ≡ some r
    → r.parent_id ≡ some p
    → position p rows < position x rows

position-lt-length :
    (x : String) (rows : List Session) (r : Session)
    → find_by_id x rows ≡ some r
    → position x rows < length rows
unfolding find_by_id position
position-lt-length x [] r f = absurd (cc)
position-lt-length x (s ∷ rows) r f = ground (arith, position-lt-length x rows r)

generations_le :
    (rows : List Session) (n : ℕ) (a x : String)
    → IsParentFirst rows
    → Descends rows n a x
    → position a rows + n ≤ position x rows
generations_le rows zero a x first itself = omega arith
generations_le rows (suc n) a x first (through {c = c} r f p d) =
    omega (arith, first c a r f p, generations_le rows n c x first d)

-- In a table where every session stands behind its parent, revoking a session revokes every session
-- that comes from it in any number of generations, itself included: a token of such a session is
-- answered with null afterwards, at any time.
pub revoked_is_refused :
    (service : TokenService) (fresh token new_id a : String) (now later n : ℕ)
    (payload : RefreshTokenPayload) (rows : List Session) (top r : Session)
    → service.verify_refresh_token token ≡ some payload
    → find_by_id a rows ≡ some top
    → find_by_id payload.session_id rows ≡ some r
    → Descends rows n a payload.session_id
    → IsParentFirst rows
    → (refresh
        (session_repository fresh)
        service
        later
        new_id
        token
        (revoke_session_and_descendants now a rows)).1
      ≡ null
unfolding refresh refresh_payload revoke_session_and_descendants
revoked_is_refused service fresh token new_id a now later n payload rows top r v t f d first =
    let l : n ≤ length rows = omega (
      arith,
      generations_le rows n a payload.session_id first d,
      position-lt-length payload.session_id rows r f,
    ) in
    let ids = descendants (length rows) (a ∷ []) rows in
    let named =
      has_id-descendants rows (length rows) n (a ∷ []) a payload.session_id d l (has_itself a) in
    let found = find_by_id-mark now ids payload.session_id rows r f named in
    let revoked = (revoke_row-IsRevoked now r).1 in
    elim (Option-cases (revoke_row now r).revoked_at) [
      | inl e ↦ absurd (revoked e)
      | inr (at_time, e) ↦
          rw (refresh, v, revoke_session_and_descendants, t, refresh_payload, found, e) refl
    ]
