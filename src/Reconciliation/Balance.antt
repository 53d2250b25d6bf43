-- ===== src/Reconciliation/Balance.antt =====
-- What a balanced reconciliation says.
use implement_offering_valid.Common.{
  ℕ, ◌≡◌, refl, Bool, true, false, ◌&&◌, ◌||◌, not, List, [], ◌∷◌, if◌then◌else◌, str_eq,
}
use implement_offering_valid.Reconciliation.{
  DistributionRun, Discrepancy, Double, is_completed, is_off_cents,
}

abbrev pub is_nil : List Discrepancy → Bool
is_nil [] = true
is_nil (d ∷ ds) = false

-- A run that is settled: neither failed nor still processing.
abbrev pub is_settled : DistributionRun → Bool
is_settled r = not (str_eq r.status "failed") && not (str_eq r.status "processing")

-- `all p runs`
abbrev pub all : (DistributionRun → Bool) → List DistributionRun → Bool
all p [] = true
all p (r ∷ rs) = p r && all p rs

abbrev optional : Bool → List Discrepancy → List Discrepancy
optional asked ds = if asked then ds else []

quiet :
    (b c d : Bool) (ds : List Discrepancy)
    → (d ≡ true → c ≡ false)
    → is_nil (if not b then [] else if c && d then ds else []) ≡ true
quiet false c d ds h = refl
quiet true false d ds h = refl
quiet true true false ds h = refl
quiet true true true ds h = absurd (cc (h refl))

module _ {D : Type 0} (num : Double D) where
  -- The total of a run, where it is positive, is positive over any number of investors or over none: it
  -- is not so small that the quotient underflows.
  abbrev pub IsShared : DistributionRun → Type 0
  IsShared r =
      (count : ℕ)
      → num.gt (num.parse_float r.total_amount) num.nought ≡ true
      → num.le (num.over (num.parse_float r.total_amount) count) num.nought ≡ false

  -- The total of a completed run is at most 0.001 from a number of cents.
  abbrev pub in_cents : DistributionRun → Bool
  in_cents r = not (is_completed r) || not (is_off_cents num (num.parse_float r.total_amount))
