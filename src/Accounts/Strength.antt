-- ===== src/Accounts/Strength.antt =====
-- The strength of passwords (src/lib/passwordStrength.ts). Case is mapped for ASCII letters only.
use Prim.Native.Char.{Char, code}
use implement_offering_valid.Common.{
  String, Bool, true, false, ◌&&◌, ◌||◌, not, List, [], ◌∷◌, ◌++◌, ltb, leb, if◌then◌else◌, str_eq,
  is_empty, is_digit, to_lower, has_part, has_char, has_run, utf16_length,
}

pub data Weakness : Type 0 where
  required too_short too_long no_uppercase no_lowercase no_number no_special : Weakness
  too_common repeated sequential : Weakness

abbrev pub is_upper : Char → Bool
is_upper c = leb 65 (code c) && leb (code c) 90

abbrev pub is_lower : Char → Bool
is_lower c = leb 97 (code c) && leb (code c) 122

-- `[!@#$%^&*()_+\-=\[\]{};':"\\|,.<>\/?]`: of the ASCII characters that are printed, all but letters,
-- digits, the blank, the grave accent and the tilde.
abbrev pub is_special : Char → Bool
is_special c =
    (leb 33 (code c) && leb (code c) 47)
    || (leb 58 (code c) && leb (code c) 64)
    || (leb 91 (code c) && leb (code c) 95)
    || (leb 123 (code c) && leb (code c) 125)

unfoldable pub has_one_of : List String → String → Bool
has_one_of [] s = false
has_one_of (part ∷ parts) s = has_part part s || has_one_of parts s

unfoldable pub is_one_of : List String → String → Bool
is_one_of [] s = false
is_one_of (word ∷ words) s = str_eq word s || is_one_of words s

abbrev pub common_passwords : List String
common_passwords =
    "password" ∷ "123456" ∷ "123456789" ∷ "qwerty" ∷ "abc123" ∷ "password123" ∷ "admin" ∷ "letmein"
    ∷ "welcome" ∷ "monkey" ∷ "1234567890" ∷ "iloveyou" ∷ "princess" ∷ "rockyou" ∷ "1234567"
    ∷ "12345678" ∷ "password1" ∷ "123123" ∷ "football" ∷ "baseball" ∷ "welcome1" ∷ "admin123"
    ∷ "root" ∷ "user" ∷ []

abbrev pub sequences : List String
sequences =
    "012" ∷ "123" ∷ "234" ∷ "345" ∷ "456" ∷ "567" ∷ "678" ∷ "789" ∷ "890" ∷ "abc" ∷ "bcd" ∷ "cde"
    ∷ "def" ∷ "efg" ∷ "fgh" ∷ "ghi" ∷ "hij" ∷ "ijk" ∷ "jkl" ∷ "klm" ∷ "lmn" ∷ "mno" ∷ "nop" ∷ "opq"
    ∷ "pqr" ∷ "qrs" ∷ "rst" ∷ "stu" ∷ "tuv" ∷ "uvw" ∷ "vwx" ∷ "wxy" ∷ "xyz" ∷ []

-- `if (test) errors.push(error)`
abbrev pub when : Bool → Weakness → List Weakness
when test error = if test then error ∷ [] else []

-- The errors; the password is valid where there is none.
unfoldable pub validate_password_strength : String → List Weakness
validate_password_strength p =
    if is_empty p
    then required ∷ []
    else let low = to_lower p in
      when (ltb (utf16_length p) 12) too_short
      ++ (when (ltb 128 (utf16_length p)) too_long
          ++ (when (not (has_char is_upper p)) no_uppercase
              ++ (when (not (has_char is_lower p)) no_lowercase
                  ++ (when (not (has_char is_digit p)) no_number
                      ++ (when (not (has_char is_special p)) no_special
                          ++ (when (is_one_of common_passwords low) too_common
                              ++ (when (has_run p) repeated
                                  ++ when (has_run low || has_one_of sequences low)
                                      sequential)))))))

abbrev pub is_nil : List Weakness → Bool
is_nil [] = true
is_nil (e ∷ es) = false

abbrev pub is_strong : String → Bool
is_strong p = is_nil (validate_password_strength p)
