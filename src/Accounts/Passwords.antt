-- ===== src/Accounts/Passwords.antt =====
-- A user's password from the registration on: what a login takes, and what a change of it does.
use text.Mathlib.TextPositions.{eq_refl}
use implement_offering_valid.Common.{
  ℕ, String, ◌≡◌, refl, sym, ◌⊎◌, true, false, none, some, List, [], ◌∷◌, ◌++◌, arith, eq_iff,
  is_empty, Bool-cases, if◌then◌else◌, after, trim, to_lower, inl, inr,
}
use implement_offering_valid.Refresh.{Session, RefreshTokenPayload, Tokens, find_by_id}
use implement_offering_valid.Accounts.{
  User, Crypto, find_user_by_id, find_by_email, update_password_hash, hash_password,
  compare_password, colon,
}
use implement_offering_valid.Accounts.Strength.{validate_password_strength, Weakness}
use implement_offering_valid.Accounts.Register.{registered, register}
use implement_offering_valid.Accounts.Login.{verify_login_password, null, logged_in, login}
use implement_offering_valid.Accounts.ChangePassword.{
  ChangePasswordResult, changed, current_required, too_weak, wrong_password, change_hash, execute,
}
use implement_offering_valid.Accounts.Sessions.{login_lem, open_session_lem, tokens_of}
use implement_offering_valid.Accounts.Formats.{
  Fits, compares_own_hash, compares_no_digest, investor, registered_row, find_by_email-append,
  find_user_by_id-append, key_of_hash,
}

List-cases :
    (es : List Weakness) → (es ≡ []) ⊎ ((e : Weakness) × (rest : List Weakness) × (es ≡ e ∷ rest))
List-cases [] = inl refl
List-cases (e ∷ rest) = inr (e, rest, refl)

-- Why a change is refused whose current password is not accepted.
abbrev pub refusal : String → String → ChangePasswordResult
refusal current new =
    if is_empty current
    then current_required
    else elim (validate_password_strength new) [ e ∷ es ↦ too_weak (e ∷ es) | [] ↦ wrong_password ]

verifies_itself :
    (crypto : Crypto) (password : String)
    → verify_login_password crypto password (crypto.sha256 password) ≡ true
unfolding verify_login_password
verifies_itself crypto password = ground (arith, eq_refl (crypto.sha256 password))

module _ (crypto : Crypto) where
  -- An investor who registered logs in with the password and the email as it is stored, in lower case
  -- and trimmed, and is who registered.
  pub registered_logs_in :
      (sign : RefreshTokenPayload → Tokens) (now : ℕ) (fresh session_id raw_email password : String)
      (users : List User) (sessions : List Session) (u : User)
      → (register crypto fresh raw_email password users).1 ≡ registered u
      → is_empty session_id ≡ false
      → find_by_id session_id sessions ≡ none
      → let users' = (register crypto fresh raw_email password users).0 in
        (login crypto sign now session_id (trim (to_lower raw_email)) password users' sessions).1
        ≡ logged_in (tokens_of sign session_id u) fresh (trim (to_lower raw_email)) "investor"
  registered_logs_in sign now fresh session_id raw_email password users sessions u h g f =
      let email = trim (to_lower raw_email) in
      let (new, same, table) = registered_row crypto fresh raw_email password users u h in
      let row = investor crypto fresh email password in
      let here = find_by_email-append email users row new refl in
      rw
        (
          table,
          same,
          login_lem crypto sign now session_id email password row (users ++ row ∷ []) sessions here
              (verifies_itself crypto password),
          open_session_lem crypto sign now session_id row sessions g f,
        )
        refl

  unchanged :
      (salt user_id current new : String) (users : List User) (u : User)
      → find_user_by_id user_id users ≡ some u
      → after colon u.password_hash ≡ none
      → change_hash crypto salt user_id current new users ≡ (users, wrong_password)
  unfolding change_hash
  unchanged salt user_id current new users u f h =
      rw (change_hash, f, compares_no_digest crypto current u.password_hash h) refl

  refused :
      (salt user_id current new : String) (users : List User) (u : User)
      → find_user_by_id user_id users ≡ some u
      → after colon u.password_hash ≡ none
      → execute crypto salt user_id current new users ≡ (users, refusal current new)
  unfolding execute
  refused salt user_id current new users u f h = elim (Bool-cases (is_empty current)) [
    | inl g ↦ rw (execute, g) refl
    | inr g ↦ elim (List-cases (validate_password_strength new)) [
      | inl s ↦ rw (execute, g, s) (unchanged salt user_id current new users u f h)
      | inr (e, rest, s) ↦ rw (execute, g, s) refl
    ]
  ]

  -- An investor who registered can never change the password: where SHA-256 has no colon, as hex has
  -- not, and the id is new, every attempt, whatever passwords are given, leaves the table as it was. The
  -- answer is that the current password is required, where it is empty, that the new one is too weak,
  -- where it is, and else that the current one is wrong, also where it is right.
  pub registered_cannot_change :
      (fresh raw_email password salt current new : String) (users : List User) (u : User)
      → (register crypto fresh raw_email password users).1 ≡ registered u
      → find_user_by_id fresh users ≡ none
      → after colon (crypto.sha256 password) ≡ none
      → let users' = (register crypto fresh raw_email password users).0 in
        execute crypto salt fresh current new users' ≡ (users', refusal current new)
  registered_cannot_change fresh raw_email password salt current new users u h f d =
      let email = trim (to_lower raw_email) in
      let (_, same, table) = registered_row crypto fresh raw_email password users u h in
      let row = investor crypto fresh email password in
      let here = find_user_by_id-append fresh users row f refl in
      rw table (refused salt fresh current new (users ++ row ∷ []) row here d)

  changed_table :
      (salt user_id current new : String) (users : List User)
      → (execute crypto salt user_id current new users).1 ≡ changed
      → (execute crypto salt user_id current new users).0
        ≡ update_password_hash user_id (hash_password crypto salt new) users
  unfolding execute change_hash
  changed_table salt user_id current new users h = ground arith

  hash_after_update :
      (id email h : String) (users : List User) (u : User)
      → find_by_email email (update_password_hash id h users) ≡ some u
      → u.id ≡ id
      → u.password_hash ≡ h
  unfolding find_by_email update_password_hash
  hash_after_update id email h [] u f e = absurd (cc)
  hash_after_update id email h (v ∷ users) u f e =
      ground (arith, hash_after_update id email h users u, eq_iff v.id id)

  digest_differs :
      (salt plain password : String)
      → after colon salt ≡ none
      → after colon (crypto.sha256 password) ≡ none
      → verify_login_password crypto password (hash_password crypto salt plain) ≡ false
  unfolding verify_login_password
  digest_differs salt plain password h k =
      let keyed = key_of_hash crypto salt plain h in
      ground (arith, eq_iff (crypto.sha256 password) (hash_password crypto salt plain), keyed)

  -- After a change of the password, no password logs the user in: the hash is scrypt's, with its colon,
  -- and the login compares it with SHA-256 in hex, which has none. The change itself takes the new
  -- password as the current one.
  pub changed_cannot_log_in :
      (sign : RefreshTokenPayload → Tokens) (now : ℕ)
      (session_id email password salt user_id current new : String) (users : List User)
      (sessions : List Session) (u : User)
      → (execute crypto salt user_id current new users).1 ≡ changed
      → Fits crypto salt new
      → after colon (crypto.sha256 password) ≡ none
      → find_by_email email (execute crypto salt user_id current new users).0 ≡ some u
      → u.id ≡ user_id
      → (login crypto sign now session_id email password
            (execute crypto salt user_id current new users).0
            sessions
          ≡ (sessions, null))
        × (compare_password crypto new u.password_hash ≡ true)
  unfolding login
  changed_cannot_log_in sign now session_id email password salt user_id current new users sessions u
        h fits k f e =
      let table = changed_table salt user_id current new users h in
      let found : find_by_email email
            (update_password_hash user_id (hash_password crypto salt new) users)
          ≡ some u =
        rw (sym table) f in
      let hashed =
        hash_after_update user_id email (hash_password crypto salt new) users u found e in
      let differs : verify_login_password crypto password u.password_hash ≡ false =
        rw hashed (digest_differs salt new password fits.1 k) in
      (rw (login, f, differs) refl, rw hashed (compares_own_hash crypto salt new fits))
