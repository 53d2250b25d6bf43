-- ===== src/Accounts/Tests.antt =====
-- Accounts under toy hashes: SHA-256 puts a mark before a text, scrypt gives its length in strokes.
use Prim.Native.String
use Prim.Native.String.{len}
use implement_offering_valid.Common.{
  ℕ, zero, suc, ◌/◌, ltb, if◌then◌else◌, ◌+◌, ◌-◌, ◌≤◌, String, ◌≡◌, refl, true, false, none, some,
  List, [], ◌∷◌, arith, before, after, trim, to_lower, has_char, has_run, has_part, utf16_length,
  drop_chars, has_inner_dot,
}
use implement_offering_valid.Refresh.{RefreshTokenPayload, Tokens, find_by_id, refresh_ttl}
use implement_offering_valid.Claims.{
  JwtPayload, no_audience, Checked, fine, Verified, verified, expired_error,
}
use implement_offering_valid.Access.{passed, denied, bearer_token}
use implement_offering_valid.Access.Tokens.{require_auth}
use implement_offering_valid.Accounts.{
  User, Crypto, find_user_by_id, find_by_email, create_user, update_password_hash, hash_password,
  compare_password, bytes_eq,
}
use implement_offering_valid.Accounts.Strength.{
  validate_password_strength, too_short, no_special, sequential, has_one_of, is_one_of,
}
use implement_offering_valid.Accounts.Register.{
  is_email, registered, register, register_email, register_startup, handle_register_startup,
  result_of, created_user,
}
use implement_offering_valid.Accounts.Login.{null, logged_in, login, verify_login_password}
use implement_offering_valid.Accounts.ChangePassword.{changed, wrong_password, execute, change_hash}
use implement_offering_valid.Accounts.Sessions.{LogsIn, access_token_refused, tokens_of}
use implement_offering_valid.Accounts.Lifetime.{access_claims}
use implement_offering_valid.Accounts.Formats.{Fits}
use implement_offering_valid.Accounts.Passwords.{
  refusal, registered_logs_in, registered_cannot_change, changed_cannot_log_in,
}

strokes : ℕ → String
strokes zero = "b"
strokes (suc n) = String.◌++◌ "a" (strokes n)

first_of : List ℕ → ℕ
first_of [] = 0
first_of (n ∷ ns) = n

abbrev crypto : Crypto
crypto = record {
  sha256 = λ s. String.◌++◌ "h" s;
  scrypt = λ plain salt. len plain ∷ [];
  to_hex = λ key. strokes (first_of key);
  from_hex = λ s. (len s - 1) ∷ [];
}

abbrev sign : RefreshTokenPayload → Tokens
sign p = record {
  access_token = String.◌++◌ "a." p.session_id;
  refresh_token = String.◌++◌ "r." p.session_id;
}

abbrev payload : JwtPayload
payload = record {
  sub = some "u1";
  email = none;
  iat = none;
  exp = none;
  nbf = none;
  iss = none;
  aud = no_audience;
  sid = some "s1";
  role = some "investor";
}

abbrev verify : String → Checked JwtPayload
verify token = fine payload

weak_passwords :
    (validate_password_strength "Aabc1" ≡ too_short ∷ no_special ∷ sequential ∷ [])
    × (validate_password_strength "Correct-Horse-71x" ≡ [])
unfolding validate_password_strength utf16_length has_char to_lower is_one_of has_run has_one_of
    has_part
weak_passwords = (refl, refl)

emails : (is_email "ann@x.org" ≡ true) × (is_email "ann@x" ≡ false) × (is_email "a b@x.org" ≡ false)
unfolding is_email has_char before after has_inner_dot
emails = (refl, refl, refl)

abbrev ann : User
ann = record {
  id = "u1";
  email = "ann@x.org";
  password_hash = "hCorrect-Horse-71x";
  name = none;
  role = "investor";
}

registers : (register crypto "u1" " Ann@X.org" "Correct-Horse-71x" []).1 ≡ registered ann
unfolding register register_email create_user find_by_email validate_password_strength utf16_length
    has_char to_lower trim is_one_of has_run has_one_of has_part
registers = refl

no_session : find_by_id "s1" [] ≡ none
unfolding find_by_id
no_session = refl

registered_logs_in_example :
    let users' = (register crypto "u1" " Ann@X.org" "Correct-Horse-71x" []).0 in
    (login crypto sign 5 "s1" (trim (to_lower " Ann@X.org")) "Correct-Horse-71x" users' []).1
    ≡ logged_in (tokens_of sign "s1" ann) "u1" (trim (to_lower " Ann@X.org")) "investor"
registered_logs_in_example =
    registered_logs_in crypto sign 5 "u1" "s1" " Ann@X.org" "Correct-Horse-71x" [] [] ann registers
      refl no_session

no_user : find_user_by_id "u1" [] ≡ none
unfolding find_user_by_id
no_user = refl

no_colon : after 58 "hCorrect-Horse-71x" ≡ none
unfolding after
no_colon = refl

registered_cannot_change_example :
    let users' = (register crypto "u1" " Ann@X.org" "Correct-Horse-71x" []).0 in
    execute crypto "s" "u1" "Correct-Horse-71x" "Better-Horse-71x" users'
    ≡ (users', refusal "Correct-Horse-71x" "Better-Horse-71x")
registered_cannot_change_example =
    registered_cannot_change crypto "u1" " Ann@X.org" "Correct-Horse-71x" "s" "Correct-Horse-71x"
      "Better-Horse-71x" [] ann registers no_user no_colon

strong_is_refused : refusal "Correct-Horse-71x" "Better-Horse-71x" ≡ wrong_password
unfolding validate_password_strength utf16_length has_char to_lower is_one_of has_run has_one_of
    has_part
strong_is_refused = refl

-- A startup, whose hash is scrypt's from the registration on.
abbrev bob : User
bob = record {
  id = "u2";
  email = "bob@x.org";
  password_hash = hash_password crypto "s" "Correct-Horse-71x";
  name = none;
  role = "startup";
}

abbrev bob_after : User
bob_after = record bob { password_hash = hash_password crypto "t" "Better-Horse-71x" }

startup_password_may_be_weak :
    (handle_register_startup crypto "u2" "s" (some "bob@x.org") (some "password") none []).1
    ≡ result_of (created_user "u2" "bob@x.org" none "startup")
unfolding handle_register_startup register_startup is_email has_char before after has_inner_dot
    utf16_length find_by_email create_user
startup_password_may_be_weak = refl

changes : (execute crypto "t" "u2" "Correct-Horse-71x" "Better-Horse-71x" (bob ∷ [])).1 ≡ changed
unfolding execute change_hash validate_password_strength utf16_length has_char to_lower is_one_of
    has_run has_one_of has_part find_user_by_id compare_password hash_password before after bytes_eq
    strokes first_of
changes = refl

found_after :
    find_by_email "bob@x.org"
      (execute crypto "t" "u2" "Correct-Horse-71x" "Better-Horse-71x" (bob ∷ [])).0
    ≡ some bob_after
unfolding execute change_hash validate_password_strength utf16_length has_char to_lower is_one_of
    has_run has_one_of has_part find_user_by_id compare_password hash_password before after bytes_eq
    strokes first_of find_by_email update_password_hash
found_after = refl

fits : Fits crypto "t" "Better-Horse-71x"
unfolding after strokes first_of
fits = (refl, refl, refl, refl, refl)

no_colon_in_new : after 58 "hBetter-Horse-71x" ≡ none
unfolding after
no_colon_in_new = refl

changed_cannot_log_in_example :
    (login crypto sign 5 "s1" "bob@x.org" "Better-Horse-71x"
        (execute crypto "t" "u2" "Correct-Horse-71x" "Better-Horse-71x" (bob ∷ [])).0
        []
      ≡ ([], null))
    × (compare_password crypto "Better-Horse-71x" bob_after.password_hash ≡ true)
changed_cannot_log_in_example =
    changed_cannot_log_in crypto sign 5 "s1" "bob@x.org" "Better-Horse-71x" "t" "u2"
      "Correct-Horse-71x" "Better-Horse-71x" (bob ∷ []) [] bob_after changes fits no_colon_in_new
      found_after refl

logs_in : LogsIn crypto "s1" "ann@x.org" "Correct-Horse-71x" ann (ann ∷ []) []
unfolding find_by_email verify_login_password find_by_id
logs_in = (refl, refl, refl, refl)

bearer_access : bearer_token (some "Bearer a.s1") ≡ some "a.s1"
unfolding drop_chars
bearer_access = refl

bearer_refresh : bearer_token (some "Bearer r.s1") ≡ some "r.s1"
unfolding drop_chars
bearer_refresh = refl

in_time : 600 ≤ 5 + refresh_ttl
in_time = omega arith

abbrev jwt_verify : ℕ → String → String → Verified
jwt_verify t secret token =
    if ltb t (5_000 / 1000 + 3600)
    then verified (access_claims (5_000 / 1000) "s1" ann)
    else expired_error

abbrev jwt_secret : String
jwt_secret = "0123456789abcdef0123456789abcdef"

access_token_refused_example :
    let sessions' = (login crypto sign 5 "s1" "ann@x.org" "Correct-Horse-71x" (ann ∷ []) []).0 in
    (require_auth verify crypto.sha256 600 sessions' (some "Bearer a.s1")
      ≡ denied 401 "Unauthorized: token mismatch")
    × (require_auth verify crypto.sha256 600 sessions' (some "Bearer r.s1")
        ≡ passed (record { user_id = "u1"; session_id = "s1"; role = some "investor" }))
access_token_refused_example =
    access_token_refused crypto sign verify 5 600 "s1" "ann@x.org" "Correct-Horse-71x" ann
      (ann ∷ []) [] payload payload (some "Bearer a.s1") (some "Bearer r.s1") logs_in refl refl
      (refl, refl) (refl, refl) refl bearer_access bearer_refresh refl in_time
