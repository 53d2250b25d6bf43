-- ===== src/Accounts/Formats.antt =====
-- The two formats of a password's hash: SHA-256, as registration and login have it, and scrypt with its
-- salt, as the change of a password has it.
use implement_offering_valid.Common.{
  ℕ, String, ◌≡◌, refl, true, false, none, some, List, [], ◌∷◌, ◌++◌, arith, eq_iff, is_empty,
  before, after, before_colon-append, after_colon-append, before_all, to_lower, trim, Option-cases,
  Bool-cases, inl, inr,
}
use implement_offering_valid.Accounts.{
  User, Crypto, find_user_by_id, find_by_email, create_user, hash_password, compare_password,
  bytes_eq, colon, stored_hash,
}
use implement_offering_valid.Accounts.Register.{registered, register_email, register}

bytes_eq_refl : (bs : List ℕ) → bytes_eq bs bs ≡ true
unfolding bytes_eq
bytes_eq_refl [] = refl
bytes_eq_refl (b ∷ bs) = ground (arith, bytes_eq_refl bs)

pub find_by_email-append :
    (email : String) (users : List User) (u : User)
    → find_by_email email users ≡ none
    → u.email ≡ email
    → find_by_email email (users ++ u ∷ []) ≡ some u
unfolding find_by_email
find_by_email-append email [] u h e = ground (arith, eq_iff u.email email)
find_by_email-append email (v ∷ users) u h e = ground (arith, find_by_email-append email users u)

pub find_user_by_id-append :
    (id : String) (users : List User) (u : User)
    → find_user_by_id id users ≡ none
    → u.id ≡ id
    → find_user_by_id id (users ++ u ∷ []) ≡ some u
unfolding find_user_by_id
find_user_by_id-append id [] u h e = ground (arith, eq_iff u.id id)
find_user_by_id-append id (v ∷ users) u h e = ground (arith, find_user_by_id-append id users u)

-- `Fits crypto salt plain`: the salt and the hex of the key are not empty and have no colon, and the
-- hex reads back.
abbrev pub Fits : Crypto → String → String → Type 0
Fits crypto salt plain =
    (is_empty salt ≡ false)
    × (after colon salt ≡ none)
    × (after colon (crypto.to_hex (crypto.scrypt plain salt)) ≡ none)
    × (is_empty (crypto.to_hex (crypto.scrypt plain salt)) ≡ false)
    × (crypto.from_hex (crypto.to_hex (crypto.scrypt plain salt)) ≡ crypto.scrypt plain salt)

module _ (crypto : Crypto) where
  salt_of_hash :
      (salt plain : String)
      → after colon salt ≡ none
      → before colon (hash_password crypto salt plain) ≡ salt
  unfolding hash_password
  salt_of_hash salt plain h = before_colon-append salt (crypto.to_hex (crypto.scrypt plain salt)) h

  pub key_of_hash :
      (salt plain : String)
      → after colon salt ≡ none
      → after colon (hash_password crypto salt plain)
        ≡ some (crypto.to_hex (crypto.scrypt plain salt))
  unfolding hash_password
  key_of_hash salt plain h = after_colon-append salt (crypto.to_hex (crypto.scrypt plain salt)) h

  pub stored_hash_of :
      (salt plain : String)
      → after colon salt ≡ none
      → after colon (crypto.to_hex (crypto.scrypt plain salt)) ≡ none
      → stored_hash (hash_password crypto salt plain)
        ≡ some (crypto.to_hex (crypto.scrypt plain salt))
  stored_hash_of salt plain h k =
      rw (key_of_hash salt plain h, before_all colon (crypto.to_hex (crypto.scrypt plain salt)) k)
        refl

  pub compares_own_hash :
      (salt plain : String)
      → Fits crypto salt plain
      → compare_password crypto plain (hash_password crypto salt plain) ≡ true
  unfolding compare_password
  compares_own_hash salt plain (e, a, b, f, r) =
      let key = crypto.scrypt plain salt in
      rw (compare_password, salt_of_hash salt plain a, stored_hash_of salt plain a b, e, f, r)
        (ground (arith, bytes_eq_refl key))

  -- A hash without a colon, such as SHA-256 in hex, is that of no password.
  pub compares_no_digest :
      (plain stored : String)
      → after colon stored ≡ none
      → compare_password crypto plain stored ≡ false
  unfolding compare_password
  compares_no_digest plain stored h = elim (Bool-cases (is_empty (before colon stored))) [
    | inl e ↦ rw (compare_password, e) refl
    | inr e ↦ rw (compare_password, e, h) refl
  ]

  -- `investor fresh email password`: the row that a registration inserts.
  abbrev pub investor : String → String → String → User
  investor fresh email password = record {
    id = fresh;
    email = email;
    password_hash = crypto.sha256 password;
    name = none;
    role = "investor";
  }

  register_email_fresh :
      (fresh email password : String) (users : List User)
      → find_by_email email users ≡ none
      → register_email crypto fresh email password users
        ≡ (users ++ investor fresh email password ∷ [], registered (investor fresh email password))
  unfolding register_email create_user
  register_email_fresh fresh email password users e = rw (register_email, e, create_user, e) refl

  -- A registration that succeeds inserts the row of the investor, whose email was not there.
  register_email_row :
      (fresh email password : String) (users : List User) (u : User)
      → (register_email crypto fresh email password users).1 ≡ registered u
      → (find_by_email email users ≡ none)
        × (u ≡ investor fresh email password)
        × ((register_email crypto fresh email password users).0
            ≡ users ++ investor fresh email password ∷ [])
  unfolding register_email
  register_email_row fresh email password users u h =
      elim (Option-cases (find_by_email email users)) [
        | inl e ↦
            let row = register_email_fresh fresh email password users e in
            (e, ground (arith, row), ground (arith, row))
        | inr (v, e) ↦ absurd (ground arith)
      ]

  pub registered_row :
      (fresh raw_email password : String) (users : List User) (u : User)
      → (register crypto fresh raw_email password users).1 ≡ registered u
      → let email = trim (to_lower raw_email) in
        (find_by_email email users ≡ none)
        × (u ≡ investor fresh email password)
        × ((register crypto fresh raw_email password users).0
            ≡ users ++ investor fresh email password ∷ [])
  unfolding register
  registered_row fresh raw_email password users u h =
      let (e, same, table) =
        register_email_row fresh (trim (to_lower raw_email)) password users u (ground arith) in
      (e, same, ground (arith, table))
