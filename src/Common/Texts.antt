-- ===== src/Common/Texts.antt =====
-- The string methods that the source calls: `trim`, `toLowerCase`, `toUpperCase`, `includes`.
-- Case is mapped for ASCII letters only; other characters are left as they are.
use Prim.Native.Nat.{ℕ, zero, suc, ◌+◌, ◌-◌, ◌*◌}
use Prim.Native.Char.{Char, char, code}
use Prim.Native.String.append
use Prim.Native.String.{String, [], ◌∷◌, ◌++◌}
use mathlib.Core.Bool.{Bool, true, false, not, ◌&&◌, ◌||◌}
use mathlib.Core.Path.{◌≡◌, refl}
use native.Mathlib.Omega.{arith}
use mathlib.Core.Option.{Option, none, some}
use text.Mathlib.Text.{◌==◌ as str_eq, starts_with}
use implement_offering_valid.Common.Int.{ℤ, pos, negsuc, sub_ℕ}
use implement_offering_valid.Common.Tests.{ltb, leb, ◌==◌, if◌then◌else◌}

-- White space and line ends, as `trim` takes them.
abbrev pub is_space : Char → Bool
is_space c =
    (leb 9 (code c) && leb (code c) 13)
    || code c == 32
    || code c == 160
    || code c == 0xFEFF
    || code c == 0x1680
    || (leb 0x2000 (code c) && leb (code c) 0x200A)
    || code c == 0x2028
    || code c == 0x2029
    || code c == 0x202F
    || code c == 0x205F
    || code c == 0x3000

trim_start : String → String
trim_start [] = []
trim_start (c ∷ s) = let rest = trim_start s in if is_space c then rest else c ∷ s

abbrev push_unless_space : Char → String → String
push_unless_space c [] = if is_space c then [] else c ∷ []
push_unless_space c (d ∷ s) = c ∷ d ∷ s

trim_end : String → String
trim_end [] = []
trim_end (c ∷ s) = push_unless_space c (trim_end s)

unfoldable pub trim : String → String
unfolding trim_start trim_end
trim s = trim_end (trim_start s)

nth_char : String → ℕ → Char → Char
nth_char [] i d = d
nth_char (c ∷ s) zero d = c
nth_char (c ∷ s) (suc i) d = nth_char s i d

lower_char : Char → Char
unfolding nth_char
lower_char c =
    if leb 65 (code c) && leb (code c) 90
    then nth_char "abcdefghijklmnopqrstuvwxyz" (code c - 65) c
    else c

upper_char : Char → Char
unfolding nth_char
upper_char c =
    if leb 97 (code c) && leb (code c) 122
    then nth_char "ABCDEFGHIJKLMNOPQRSTUVWXYZ" (code c - 97) c
    else c

unfoldable pub to_lower : String → String
unfolding lower_char
to_lower [] = []
to_lower (c ∷ s) = lower_char c ∷ to_lower s

unfoldable pub to_upper : String → String
unfolding upper_char
to_upper [] = []
to_upper (c ∷ s) = upper_char c ∷ to_upper s

-- `s.includes(part)`
unfoldable pub has_part : String → String → Bool
has_part part [] = str_eq part ""
has_part part (c ∷ s) = starts_with (c ∷ s) part || has_part part s

-- `s.length`: the UTF-16 code units.
unfoldable pub utf16_length : String → ℕ
utf16_length [] = 0
utf16_length (c ∷ s) = (if leb 0x10000 (code c) then 2 else 1) + utf16_length s

abbrev pub is_digit : Char → Bool
is_digit c = leb 48 (code c) && leb (code c) 57

-- The value of the leading digits.
leading_digits : ℕ → String → ℕ
leading_digits acc [] = acc
leading_digits acc (c ∷ s) =
    let more = leading_digits (acc * 10 + (code c - 48)) s in if is_digit c then more else acc

unsigned_prefix : String → Option ℕ
unfolding leading_digits
unsigned_prefix [] = none
unsigned_prefix (c ∷ s) = if is_digit c then some (leading_digits 0 (c ∷ s)) else none

abbrev negated : Option ℕ → Option ℤ
negated none = none
negated (some n) = some (sub_ℕ 0 n)

abbrev unsigned : Option ℕ → Option ℤ
unsigned none = none
unsigned (some n) = some (pos n)

signed_prefix : String → Option ℤ
unfolding unsigned_prefix
signed_prefix [] = none
signed_prefix (c ∷ s) =
    if code c == 45
    then negated (unsigned_prefix s)
    else if code c == 43
    then unsigned (unsigned_prefix s)
    else unsigned (unsigned_prefix (c ∷ s))

-- `parseInt(s, 10)`, where `none` is `NaN`.
unfoldable pub parse_int : String → Option ℤ
unfolding trim_start signed_prefix
parse_int s = signed_prefix (trim_start s)

-- `s.slice(n)`
unfoldable pub drop_chars : ℕ → String → String
drop_chars zero s = s
drop_chars (suc n) [] = []
drop_chars (suc n) (c ∷ s) = drop_chars n s

-- `s.split(c)`, by the part before the first such character and the text after it, where there is one.
unfoldable pub before : ℕ → String → String
before n [] = []
before n (c ∷ s) = if code c == n then [] else c ∷ before n s

unfoldable pub after : ℕ → String → Option String
after n [] = none
after n (c ∷ s) = if code c == n then some s else after n s

pub before-append :
    (c : Char) (s t : String) → after (code c) s ≡ none → before (code c) (s ++ (c ∷ t)) ≡ s
unfolding before after
before-append c [] t h = rw (append.nil (c ∷ t)) (ground arith)
before-append c (d ∷ s) t h = rw (append.cons d s (c ∷ t)) (ground (arith, before-append c s t))

pub after-append :
    (c : Char) (s t : String) → after (code c) s ≡ none → after (code c) (s ++ (c ∷ t)) ≡ some t
unfolding after
after-append c [] t h = rw (append.nil (c ∷ t)) (ground arith)
after-append c (d ∷ s) t h = rw (append.cons d s (c ∷ t)) (ground (arith, after-append c s t))

-- The two at a colon.
pub before_colon-append : (s t : String) → after 58 s ≡ none → before 58 (s ++ (":" ++ t)) ≡ s
before_colon-append s t h =
    rw (append.cons (char 58 _) [] t, append.nil t) (before-append (char 58 _) s t h)

pub after_colon-append : (s t : String) → after 58 s ≡ none → after 58 (s ++ (":" ++ t)) ≡ some t
after_colon-append s t h =
    rw (append.cons (char 58 _) [] t, append.nil t) (after-append (char 58 _) s t h)

pub before_all : (n : ℕ) (s : String) → after n s ≡ none → before n s ≡ s
unfolding before after
before_all n [] h = refl
before_all n (d ∷ s) h = ground (arith, before_all n s)

-- A test of characters that is met somewhere.
unfoldable pub has_char : (Char → Bool) → String → Bool
has_char p [] = false
has_char p (c ∷ s) = p c || has_char p s

-- `.` of a regular expression, for a single code unit.
abbrev is_unit : Char → Bool
is_unit c =
    not (code c == 10)
    && (not (code c == 13)
        && (not (leb 0x2028 (code c) && leb (code c) 0x2029) && ltb (code c) 0x10000))

-- The length of the run that ends here, if the next character goes on with it.
abbrev grown : Char → ℕ → Char → ℕ
grown last n c = if code c == code last then n + 1 else 1

-- The rest of `has_run`, after a run of `n` characters `last`.
has_run_from : Char → ℕ → String → Bool
has_run_from last n [] = false
has_run_from last n (c ∷ s) =
    (is_unit c && leb 5 (grown last n c)) || has_run_from c (grown last n c) s

-- `/(.)\1{4,}/`: a character outside the basic plane is two code units, and so no run of one.
unfoldable pub has_run : String → Bool
unfolding has_run_from
has_run [] = false
has_run (c ∷ s) = has_run_from c 1 s

-- A `.` with a character after it.
has_dot_before_end : String → Bool
has_dot_before_end [] = false
has_dot_before_end (c ∷ s) = (code c == 46 && not (str_eq s "")) || has_dot_before_end s

-- A `.` that is neither the first nor the last character.
unfoldable pub has_inner_dot : String → Bool
unfolding has_dot_before_end
has_inner_dot [] = false
has_inner_dot (c ∷ s) = has_dot_before_end s

text_tests :
    (trim " \t a b\n " ≡ "a b")
    × (to_lower "Ab-Z9" ≡ "ab-z9")
    × (to_upper "post" ≡ "POST")
    × (has_part "json" "application/json; x" ≡ true)
    × (has_part "xml" "text" ≡ false)
    × (parse_int " -12px" ≡ some (negsuc 11))
    × (parse_int "x1" ≡ none)
    × (parse_int "0420" ≡ some (pos 420))
    × (drop_chars 7 "Bearer abc" ≡ "abc")
    × (before 58 "ab:cd:e" ≡ "ab")
    × (after 58 "ab:cd:e" ≡ some "cd:e")
    × (after 58 "abcd" ≡ none)
    × (has_run "abbbbbc" ≡ true)
    × (has_run "abbbbc" ≡ false)
    × (has_inner_dot "a.b" ≡ true)
    × (has_inner_dot ".b." ≡ false)
unfolding has_inner_dot has_run trim to_lower to_upper has_part parse_int drop_chars before after
text_tests =
    (refl, refl, refl, refl, refl, refl, refl, refl, refl, refl, refl, refl, refl, refl, refl, refl)
