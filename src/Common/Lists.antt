-- ===== src/Common/Lists.antt =====
-- Lists measured by native numbers, and predicates and filters on lists.
use Prim.Native.Nat.{ℕ, zero, suc, ◌+◌, ◌-◌, ◌≤◌, min}
use mathlib.Core.Path.{◌≡◌, refl, sym, ap, ◌∙◌}
use mathlib.Core.Bool.{Bool, true}
use mathlib.Core.List.{List, [], ◌∷◌, ◌++◌}
use native.Mathlib.Omega.{arith}
use implement_offering_valid.Common.Tests.{leb, if◌then◌else◌}

module _ {ℓ} {A : Type ℓ} where
  abbrev pub length : List A → ℕ
  length [] = 0
  length (x ∷ xs) = suc (length xs)

  -- `xs.filter(p)`
  abbrev pub keep : (A → Bool) → List A → List A
  keep p [] = []
  keep p (x ∷ xs) = if p x then x ∷ keep p xs else keep p xs

  -- The number of entries that pass.
  abbrev pub count_if : (A → Bool) → List A → ℕ
  count_if p [] = 0
  count_if p (x ∷ xs) = if p x then suc (count_if p xs) else count_if p xs

  -- `ORDER BY created_at DESC`: rows of one time stay in the order of the table.
  unfoldable pub insert_newest : (A → ℕ) → A → List A → List A
  insert_newest time r [] = r ∷ []
  insert_newest time r (s ∷ ss) =
      if leb (time s) (time r) then r ∷ s ∷ ss else s ∷ insert_newest time r ss

  unfoldable pub newest_first : (A → ℕ) → List A → List A
  newest_first time [] = []
  newest_first time (r ∷ rs) = insert_newest time r (newest_first time rs)

  -- `xs.slice(n)` and `xs.slice(0, n)`
  unfoldable pub skip : ℕ → List A → List A
  skip zero xs = xs
  skip (suc n) [] = []
  skip (suc n) (x ∷ xs) = skip n xs

  unfoldable pub first : ℕ → List A → List A
  first zero xs = []
  first (suc n) [] = []
  first (suc n) (x ∷ xs) = x ∷ first n xs

  pub skip_all : (n : ℕ) (xs : List A) → length xs ≤ n → skip n xs ≡ []
  unfolding skip
  skip_all zero [] h = refl
  skip_all zero (x ∷ xs) h = absurd (omega (arith, h))
  skip_all (suc n) [] h = refl
  skip_all (suc n) (x ∷ xs) h = skip_all n xs (omega (arith, h))

  pub skip-add : (m n : ℕ) (xs : List A) → skip (m + n) xs ≡ skip n (skip m xs)
  unfolding skip
  skip-add zero n xs = ap (λ k. skip k xs) (omega arith)
  skip-add (suc m) n [] = skip_all (suc m + n) [] (omega arith) ∙ sym (skip_all n [] (omega arith))
  skip-add (suc m) n (x ∷ xs) =
      let one_more : suc m + n ≡ suc (m + n) = omega arith in
      ap (λ k. skip k (x ∷ xs)) one_more ∙ skip-add m n xs

  pub length-skip : (n : ℕ) (xs : List A) → length (skip n xs) ≡ length xs - n
  unfolding skip
  length-skip zero xs = omega arith
  length-skip (suc n) [] = omega arith
  length-skip (suc n) (x ∷ xs) = omega (arith, length-skip n xs)

  pub length-first : (n : ℕ) (xs : List A) → length (first n xs) ≡ min n (length xs)
  unfolding first
  length-first zero xs = ground arith
  length-first (suc n) [] = ground arith
  length-first (suc n) (x ∷ xs) = ground (arith, length-first n xs)

  pub first-skip : (n : ℕ) (xs : List A) → first n xs ++ skip (length (first n xs)) xs ≡ xs
  unfolding first skip
  first-skip zero xs = refl
  first-skip (suc n) [] = refl
  first-skip (suc n) (x ∷ xs) = ap (λ l. x ∷ l) (first-skip n xs)

  pub length-append : (xs ys : List A) → length (xs ++ ys) ≡ length xs + length ys
  length-append [] ys = omega arith
  length-append (x ∷ xs) ys = omega (arith, length-append xs ys)

module _ {ℓ κ} {A : Type ℓ} where
  abbrev pub All : (A → Type κ) → List A → Type κ
  All P [] = Unit
  All P (x ∷ xs) = P x × All P xs

module _ {ℓ} {A : Type ℓ} where
  pub keep-All : (p : A → Bool) (xs : List A) → All (λ x. p x ≡ true) (keep p xs)
  keep-All p [] = tt
  keep-All p (x ∷ xs) = ground (arith, keep-All p xs)

  pub length-keep : (p : A → Bool) (xs : List A) → length (keep p xs) ≤ length xs
  length-keep p [] = omega arith
  length-keep p (x ∷ xs) = ground (arith, length-keep p xs)
