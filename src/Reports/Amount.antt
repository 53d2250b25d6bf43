-- ===== src/Reports/Amount.antt =====
-- The amounts that a revenue report may have (src/services/revenueService.ts): `amountRegex`.
use Prim.Native.Char.{code}
use Prim.Native.String.{String, [], ◌∷◌, len}
use implement_offering_valid.Common.{
  Bool, true, false, ◌&&◌, ◌||◌, not, leb, ◌==◌, if◌then◌else◌, is_empty, is_digit,
}

-- `\d*`: what is left after the leading digits.
unfoldable pub after_digits : String → String
after_digits [] = []
after_digits (c ∷ s) = let rest = after_digits s in if is_digit c then rest else c ∷ s

abbrev starts_with_digit : String → Bool
starts_with_digit [] = false
starts_with_digit (c ∷ s) = is_digit c

-- `(\.\d{1,10})?$`
abbrev is_fraction : String → Bool
is_fraction [] = true
is_fraction (c ∷ s) =
    code c == 46 && starts_with_digit s && is_empty (after_digits s) && leb (len s) 10

unfoldable pub is_revenue_amount : String → Bool
is_revenue_amount s = starts_with_digit s && is_fraction (after_digits s)

-- `parseFloat(s) > 0` for a text of that form: it has a digit other than 0.
unfoldable pub is_positive : String → Bool
is_positive [] = false
is_positive (c ∷ s) = (is_digit c && not (code c == 48)) || is_positive s
