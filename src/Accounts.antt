-- ===== src/Accounts.antt =====
-- The users table (src/db/repositories/userRepository.ts) and the scrypt hashes of passwords
-- (src/utils/password.ts, src/lib/hash.ts). Node's hashes are parameters, new ids and salts arguments; a query that
-- violates a constraint throws.
pub mod Strength
pub mod Register
pub mod Login
pub mod ChangePassword
pub mod Sessions
pub mod Lifetime
pub mod Formats
pub mod Passwords
mod Tests
use Prim.Native.String
use implement_offering_valid.Common.{
  ℕ, String, Bool, true, false, ◌&&◌, ◌||◌, not, Option, none, some, List, [], ◌∷◌, ◌++◌, ◌==◌,
  if◌then◌else◌, str_eq, is_missing, is_empty, before, after, length,
}

pub record User : Type 0 where
  pub id : String
  pub email : String
  pub password_hash : String
  pub name : Option String
  pub role : String

pub record CreateUserInput : Type 0 where
  pub email : String
  pub password_hash : String
  pub name : Option String
  pub role : Option String

pub record UpdateUserInput : Type 0 where
  pub id : String
  pub email : Option String
  pub password_hash : Option String
  pub role : Option String

unfoldable pub find_user_by_id : String → List User → Option User
find_user_by_id id [] = none
find_user_by_id id (u ∷ us) = if str_eq u.id id then some u else find_user_by_id id us

unfoldable pub find_by_email : String → List User → Option User
find_by_email email [] = none
find_by_email email (u ∷ us) = if str_eq u.email email then some u else find_by_email email us

abbrev role_of : Option String → String
role_of none = "startup"
role_of (some role) = role

-- The new row and the table with it; an email is UNIQUE. `fresh` is the id that the database gives.
unfoldable pub create_user : String → CreateUserInput → List User → Option (List User × User)
create_user fresh input users = elim (find_by_email input.email users) [
  | some u ↦ none
  | none ↦
      let row : User = record {
        id = fresh;
        email = input.email;
        password_hash = input.password_hash;
        name = input.name;
        role = role_of input.role;
      } in
      some (users ++ row ∷ [], row)
]

abbrev or_old : Option String → String → String
or_old none old = old
or_old (some new) old = new

abbrev set_user : UpdateUserInput → User → User
set_user input u = record u {
  email = or_old input.email u.email;
  password_hash = or_old input.password_hash u.password_hash;
  role = or_old input.role u.role;
}

unfoldable pub update_row : UpdateUserInput → List User → List User
update_row input [] = []
update_row input (u ∷ us) =
    (if str_eq u.id input.id then set_user input u else u) ∷ update_row input us

-- Another user has the email.
abbrev is_taken : Option String → String → List User → Bool
is_taken none id users = false
is_taken (some email) id users = elim (find_by_email email users) [
  | none ↦ false
  | some u ↦ not (str_eq u.id id)
]

-- `none` where it throws.
unfoldable pub update_user : UpdateUserInput → List User → Option (List User × User)
update_user input users =
    if is_taken input.email input.id users
    then none
    else let updated = update_row input users in
      elim (find_user_by_id input.id updated) [ none ↦ none | some u ↦ some (updated, u) ]

unfoldable pub update_password_hash : String → String → List User → List User
update_password_hash id h [] = []
update_password_hash id h (u ∷ us) =
    (if str_eq u.id id then record u { password_hash = h } else u) ∷ update_password_hash id h us

-- SHA-256 in hex, scrypt to a key of 64 bytes, and hex of bytes and back.
pub record Crypto : Type 0 where
  pub sha256 : String → String
  pub scrypt : (plain salt : String) → List ℕ
  pub to_hex : List ℕ → String
  pub from_hex : String → List ℕ

unfoldable pub bytes_eq : List ℕ → List ℕ → Bool
bytes_eq [] [] = true
bytes_eq [] (b ∷ bs) = false
bytes_eq (a ∷ rest) [] = false
bytes_eq (a ∷ rest) (b ∷ bs) = a == b && bytes_eq rest bs

-- The code of `:`.
abbrev pub colon : ℕ
colon = 58

abbrev pub up_to_colon : Option String → Option String
up_to_colon none = none
up_to_colon (some rest) = some (before colon rest)

-- The second part of `stored.split(':')`.
abbrev pub stored_hash : String → Option String
stored_hash stored = up_to_colon (after colon stored)

abbrev pub or_blank : Option String → String
or_blank none = ""
or_blank (some s) = s

module _ (crypto : Crypto) where
  unfoldable pub hash_password : (salt : String) → String → String
  hash_password salt plain =
      String.◌++◌ salt (String.◌++◌ ":" (crypto.to_hex (crypto.scrypt plain salt)))

  -- `timingSafeEqual` is asked for buffers of one length.
  unfoldable pub compare_password : String → String → Bool
  compare_password plain stored =
      let salt = before colon stored in
      let hash = stored_hash stored in
      if is_empty salt || is_missing hash
      then false
      else let derived = crypto.scrypt plain salt in
        let expected = crypto.from_hex (or_blank hash) in
        if not (length derived == length expected) then false else bytes_eq derived expected

  -- `verifyPassword` of src/lib/hash.ts: `none` where it throws, on a hash without a second part and on
  -- keys of two lengths.
  unfoldable pub verify_password : String → String → Option Bool
  verify_password plain stored = elim (stored_hash stored) [
    | none ↦ none
    | some hash ↦
        let derived = crypto.scrypt plain (before colon stored) in
        let expected = crypto.from_hex hash in
        if not (length expected == length derived) then none else some (bytes_eq expected derived)
  ]
