-- ===== src/PasswordReset/SingleUse.antt =====
-- When a reset (src/services/passwordResetService.ts) succeeds, and what becomes of its token.
use text.Mathlib.TextPositions.{eq_refl}
use implement_offering_valid.Common.{
  ℕ, ◌≤◌, String, ◌≡◌, refl, ap, ◌≢◌, ◌↔◌, Bool, true, false, ◌&&◌, not, none, some, List, [], ◌∷◌,
  arith, if◌then◌else◌, str_eq, Option-cases, Bool-cases, inl, inr,
}
use implement_offering_valid.PasswordReset.{
  ResetToken, World, Service, find_reset_token, Query, connect, begin, select, update_user,
  update_token, commit, answered, set_password, mark_used, is_spent, reset_password,
}

-- `Works works`: every query of a reset that succeeds does.
abbrev pub Works : (Query → Bool) → Type 0
Works works =
    (works connect ≡ true)
    × (works begin ≡ true)
    × (works select ≡ true)
    × (works update_user ≡ true)
    × (works update_token ≡ true)
    × (works commit ≡ true)

unspent :
    (now : ℕ) (row : ResetToken)
    → (is_spent now row ≡ false) ↔ ((row.used_at ≡ none) × (now ≤ row.expires_at))
unspent now row = elim (Option-cases row.used_at) [
  | inl e ↦ (λ h. (e, ground arith), λ h. ground (arith, h.1))
  | inr (t, e) ↦ (λ h. absurd (ground arith), λ h. absurd (ground (arith, h.0)))
]

-- What a reset that succeeds leaves.
abbrev pub updated : Service → ℕ → String → ResetToken → World → World
updated s now password row w = record w {
  users = set_password row.user_id (s.hash password) w.users;
  reset_tokens = mark_used now row.id w.reset_tokens;
}

-- A reset of a found and unspent row whose queries succeed.
pub reset_succeeds :
    (s : Service) (works : Query → Bool) (now : ℕ) (token password : String) (w : World)
    (row : ResetToken)
    → Works works
    → find_reset_token (s.hash token) w.reset_tokens ≡ some row
    → is_spent now row ≡ false
    → reset_password s works now token password w ≡ (updated s now password row w, answered true)
unfolding reset_password
reset_succeeds s works now token password w row (a, b, c, d, e, f) found fresh =
    rw (reset_password, a, b, c, found, fresh, d, e, f) refl

both : (a b : Bool) → (a && b) ≡ true → (a ≡ true) × (b ≡ true)
both true b h = (refl, h)
both false b h = absurd (cc)

all_three : (a b c : Bool) → not (a && b && c) ≡ false → (a ≡ true) × (b ≡ true) × (c ≡ true)
all_three true true true h = (refl, refl, refl)
all_three true true false h = absurd (cc)
all_three true false c h = absurd (cc)
all_three false b c h = absurd (cc)

-- A reset answers true exactly when its queries succeed and the table has a row for the token's hash
-- that is unused and has not expired.
pub reset_password_iff :
    (s : Service) (works : Query → Bool) (now : ℕ) (token password : String) (w : World)
    → ((reset_password s works now token password w).1 ≡ answered true) ↔ (
        Works works
        × ((row : ResetToken) × (find_reset_token (s.hash token) w.reset_tokens ≡ some row)
            × (row.used_at ≡ none)
            × (now ≤ row.expires_at)))
unfolding reset_password
reset_password_iff s works now token password w =
    elim (Option-cases (find_reset_token (s.hash token) w.reset_tokens)) [
      | inl e ↦ (λ h. absurd (ground arith), λ h. absurd (ground (arith, h.1.1)))
      | inr (row, e) ↦ (
        λ h.
            let early = all_three (works connect) (works begin) (works select) (ground arith) in
            let late =
              all_three (works update_user) (works update_token) (works commit) (ground arith) in
            let fresh = (unspent now row).0 (ground arith) in
            ((early.0, early.1, early.2, late.0, late.1, late.2), (row, e, fresh.0, fresh.1)),
        λ h.
            let fresh = (unspent now h.1.0).1 (h.1.2, h.1.3) in
            ap (λ z. z.1) (reset_succeeds s works now token password w h.1.0 h.0 h.1.1 fresh),
      )
    ]

-- A reset that does not answer true leaves every table as it was: it was refused, or a query failed
-- and the transaction was rolled back.
pub unsuccessful_changes_nothing :
    (s : Service) (works : Query → Bool) (now : ℕ) (token password : String) (w : World)
    → (reset_password s works now token password w).1 ≢ answered true
    → (reset_password s works now token password w).0 ≡ w
unfolding reset_password
unsuccessful_changes_nothing s works now token password w h = ground arith

find_reset_token-mark :
    (now : ℕ) (h : String) (rows : List ResetToken) (row : ResetToken)
    → find_reset_token h rows ≡ some row
    → find_reset_token h (mark_used now row.id rows) ≡ some (record row { used_at = some now })
unfolding find_reset_token mark_used
find_reset_token-mark now h [] row f = absurd (cc)
find_reset_token-mark now h (r ∷ rows) row f =
    let keeps : (if str_eq r.id row.id then record r { used_at = some now } else r).token_hash
        ≡ r.token_hash =
      elim (Bool-cases (str_eq r.id row.id)) [ inl i ↦ rw i refl | inr i ↦ rw i refl ] in
    elim (Bool-cases (str_eq r.token_hash h)) [
      | inl e ↦
          let same : r ≡ row = ground arith in
          let own : str_eq r.id row.id ≡ true = rw same (eq_refl row.id) in
          rw (keeps, e, own)
            (ap {A = ResetToken} (λ z. some (record z { used_at = some now })) same)
      | inr e ↦ rw (keeps, e) (find_reset_token-mark now h rows row (ground arith))
    ]

-- A token resets a password once: after a reset that answered true, no reset with the same token does,
-- at any time, with any password and whichever queries succeed.
pub token_is_used_once :
    (s : Service) (works again : Query → Bool) (now later : ℕ) (token password other : String)
    (w : World)
    → (reset_password s works now token password w).1 ≡ answered true
    → (reset_password s again later token other (reset_password s works now token password w).0).1
      ≢ answered true
token_is_used_once s works again now later token password other w h second =
    let (ok, (row, found, unused, in_time)) =
      (reset_password_iff s works now token password w).0 h in
    let fresh = (unspent now row).1 (unused, in_time) in
    let after = (reset_password s works now token password w).0 in
    let left : after ≡ updated s now password row w =
      ap (λ z. z.0) (reset_succeeds s works now token password w row ok found fresh) in
    let (ok', (row', found', unused', in_time')) =
      (reset_password_iff s again later token other after).0 second in
    let marked : find_reset_token (s.hash token) after.reset_tokens
        ≡ some (record row { used_at = some now }) =
      rw left (find_reset_token-mark now (s.hash token) w.reset_tokens row found) in
    let used : row'.used_at ≡ some now = ground arith in absurd (cc)
