-- ===== src/Accounts/Register.antt =====
-- Registration: of investors (src/auth/register: registerService.ts, registerHandler.ts) and of startups
-- (src/services/startupAuthService.ts, src/routes/startupAuth.ts). A value of a request's body is a
-- text, or `none` where it is absent or no text.
use implement_offering_valid.Common.{
  String, ℕ, Bool, true, false, ◌&&◌, ◌||◌, not, Option, none, some, List, [], ◌∷◌, ltb,
  if◌then◌else◌, is_missing, is_empty, is_space, trim, to_lower, before, after, has_char,
  has_inner_dot, utf16_length,
}
use implement_offering_valid.Accounts.{
  User, Crypto, find_by_email, create_user, hash_password, or_blank,
}
use implement_offering_valid.Accounts.Strength.{Weakness, validate_password_strength}

-- The code of `@`.
abbrev at_sign : ℕ
at_sign = 64

abbrev is_domain : Option String → Bool
is_domain none = false
is_domain (some s) = (elim (after at_sign s) [ none ↦ true | some rest ↦ false ]) && has_inner_dot s

-- `/^[^\s@]+@[^\s@]+\.[^\s@]+$/`
unfoldable pub is_email : String → Bool
is_email s =
    not (has_char is_space s) && (not (is_empty (before at_sign s)) && is_domain (after at_sign s))

pub data Registered : Type 0 where
  weak : List Weakness → Registered
  duplicate_email thrown : Registered
  registered : User → Registered

abbrev pub created : List User → Option (List User × User) → List User × Registered
created users none = (users, thrown)
created users (some (users', u)) = (users', registered u)

-- The answer of `POST /api/auth/investor/register`: 201, 400 with its reason, 409, or `next(error)`.
pub data InvestorReply : Type 0 where
  made : (id email role : String) → InvestorReply
  values_required email_invalid password_short conflict passed_on : InvestorReply

abbrev pub investor_reply : Registered → InvestorReply
investor_reply (registered u) = made u.id u.email u.role
investor_reply duplicate_email = conflict
investor_reply (weak es) = passed_on
investor_reply thrown = passed_on

-- `RegistrationResult`, by its status, with the user less the hash; the messages follow from it.
pub data RegistrationResult : Type 0 where
  exists_already server_error : RegistrationResult
  created_user : (id email : String) (name : Option String) (role : String) → RegistrationResult

abbrev pub startup_result : List User → Option (List User × User) → List User × RegistrationResult
startup_result users none = (users, server_error)
startup_result users (some (users', u)) = (users', created_user u.id u.email u.name u.role)

-- The answer of the route for startups: 400 with its reason, or what the service gives.
pub data StartupReply : Type 0 where
  required_missing invalid_format too_short : StartupReply
  result_of : RegistrationResult → StartupReply

module _ (crypto : Crypto) where
  -- The part of `RegisterService.register` after the password's check.
  unfoldable pub register_email : String → String → String → List User → List User × Registered
  register_email fresh email password users = elim (find_by_email email users) [
    | some u ↦ (users, duplicate_email)
    | none ↦ created users (
        create_user fresh
          (record {
            email = email;
            password_hash = crypto.sha256 password;
            name = none;
            role = some "investor";
          })
          users)
  ]

  unfoldable pub register : String → String → String → List User → List User × Registered
  register fresh raw_email password users = elim (validate_password_strength password) [
    | e ∷ es ↦ (users, weak (e ∷ es))
    | [] ↦ register_email fresh (trim (to_lower raw_email)) password users
  ]

  unfoldable pub handle_register :
      String → Option String → Option String → List User → List User × InvestorReply
  handle_register fresh email password users =
      if is_missing email || is_missing password
      then (users, values_required)
      else if not (is_email (or_blank email))
      then (users, email_invalid)
      else if ltb (utf16_length (or_blank password)) 12
      then (users, password_short)
      else let (users', result) = register fresh (or_blank email) (or_blank password) users in
        (users', investor_reply result)

  -- `StartupAuthService.register`, whose `catch` turns an error into 500.
  unfoldable pub register_startup :
      (fresh salt : String)
      → String
      → String
      → Option String
      → List User
      → List User × RegistrationResult
  register_startup fresh salt email password name users = elim (find_by_email email users) [
    | some u ↦ (users, exists_already)
    | none ↦ startup_result users (
        create_user fresh
          (record {
            email = email;
            password_hash = hash_password crypto salt password;
            name = name;
            role = some "startup";
          })
          users)
  ]

  unfoldable pub handle_register_startup :
      (fresh salt : String)
      → Option String
      → Option String
      → Option String
      → List User
      → List User × StartupReply
  handle_register_startup fresh salt email password name users =
      if is_missing email || is_missing password
      then (users, required_missing)
      else if not (is_email (or_blank email))
      then (users, invalid_format)
      else if ltb (utf16_length (or_blank password)) 8
      then (users, too_short)
      else let (users', result) =
          register_startup fresh salt (or_blank email) (or_blank password) name users in
        (users', result_of result)
