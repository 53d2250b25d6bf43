-- ===== src/Reconciliation.antt =====
-- Revenue reconciliation (src/services/revenueReconciliationService.ts) over the tables of reports,
-- distribution runs and investments. Numbers are a parameter: the doubles with the operations on them
-- that the service uses, in the places where it uses them; a total is a text, as `toFixed(2)` leaves it.
-- The wording and the details of a discrepancy are not modelled.
pub mod Balance
pub mod Submissions
pub mod Handlers
pub mod Entitlement
mod Tests
use implement_offering_valid.Common.{
  ℕ, ◌+◌, String, Bool, true, false, ◌&&◌, ◌||◌, not, Option, none, some, List, [], ◌∷◌, ◌++◌, leb,
  if◌then◌else◌, str_eq, keep, length, newest_first,
}
use implement_offering_valid.Reports.{RevenueReport, find_by_offering_and_period, list_by_offering}

pub record DistributionRun : Type 0 where
  pub id : String
  pub offering_id : String
  pub total_amount : String
  pub status : String
  pub distribution_date : ℕ
  pub created_at : ℕ

pub record Investment : Type 0 where
  pub investor_id : String
  pub offering_id : String
  pub status : String
  pub created_at : ℕ

pub record Tables : Type 0 where
  pub reports : List RevenueReport
  pub runs : List DistributionRun
  pub investments : List Investment

pub data DiscrepancyType : Type 0 where
  revenue_mismatch distribution_status_invalid investor_allocation_error : DiscrepancyType
  rounding_loss_unaccounted : DiscrepancyType

pub data Severity : Type 0 where
  warning error critical : Severity

pub record Discrepancy : Type 0 where
  pub kind : DiscrepancyType
  pub severity : Severity
  pub offering_id : String

-- What the service does with a `double`, and the constants 0, 1, 0.01 and 0.001; `over` divides by a
-- count, and `round_cents` is `Math.round(x * 100) / 100`.
pub record Double (D : Type 0) : Type 0 where
  pub parse_float : String → D
  pub to_fixed : D → String
  pub nought : D
  pub one : D
  pub cent : D
  pub thousandth : D
  pub plus : D → D → D
  pub minus : D → D → D
  pub abs : D → D
  pub over : D → ℕ → D
  pub round_cents : D → D
  pub gt : D → D → Bool
  pub lt : D → D → Bool
  pub le : D → D → Bool

pub record Options (D : Type 0) : Type 0 where
  pub tolerance : Option D
  pub check_rounding_adjustments : Bool
  pub check_investor_allocations : Bool

abbrev pub dates_overlap : Option ℕ → Option ℕ → ℕ → ℕ → Bool
dates_overlap (some s) (some e) start end = leb s end && leb start e
dates_overlap (some s) none start end = false
dates_overlap none e start end = false

abbrev pub is_within : ℕ → ℕ → DistributionRun → Bool
is_within start end r = leb start r.distribution_date && leb r.distribution_date end

-- `distributionRepo.listByOffering`: by date, then by time of creation.
unfoldable pub list_runs : String → List DistributionRun → List DistributionRun
list_runs offering rows =
    newest_first (λ r. r.distribution_date)
      (newest_first (λ r. r.created_at) (keep (λ r. str_eq r.offering_id offering) rows))

-- `investmentRepo.findByOffering`
unfoldable pub find_investments : String → List Investment → List Investment
find_investments offering rows =
    newest_first (λ r. r.created_at) (keep (λ r. str_eq r.offering_id offering) rows)

abbrev pub relevant_reports : String → ℕ → ℕ → Tables → List RevenueReport
relevant_reports offering start end t =
    keep (λ r. dates_overlap r.period_start r.period_end start end)
      (list_by_offering offering t.reports)

abbrev pub relevant_runs : String → ℕ → ℕ → Tables → List DistributionRun
relevant_runs offering start end t = keep (is_within start end) (list_runs offering t.runs)

abbrev pub is_completed : DistributionRun → Bool
is_completed r = str_eq r.status "completed"

-- `new Set(...)`, then `size`.
unfoldable pub add_once : String → List String → List String
add_once x [] = x ∷ []
add_once x (y ∷ ys) = if str_eq x y then y ∷ ys else y ∷ add_once x ys

unfoldable pub investor_ids : List Investment → List String → List String
investor_ids [] seen = seen
investor_ids (i ∷ is) seen = investor_ids is (add_once i.investor_id seen)

pub record Summary : Type 0 where
  pub total_revenue_reported : String
  pub total_payouts : String
  pub discrepancy_amount : String
  pub investor_count : ℕ
  pub payouts_processed : ℕ
  pub payouts_failed : ℕ

pub record Result : Type 0 where
  pub is_balanced : Bool
  pub discrepancies : List Discrepancy
  pub summary : Summary

abbrev pub is_warning : Discrepancy → Bool
is_warning d = elim (d.severity) [ warning ↦ true | error ↦ false | critical ↦ false ]

abbrev pub is_error : Discrepancy → Bool
is_error d = elim (d.severity) [ warning ↦ false | error ↦ true | critical ↦ true ]

unfoldable pub some_of : (Discrepancy → Bool) → List Discrepancy → Bool
some_of p [] = false
some_of p (d ∷ ds) = p d || some_of p ds

abbrev found : DiscrepancyType → Severity → String → List Discrepancy
found kind severity offering =
    record { kind = kind; severity = severity; offering_id = offering } ∷ []

unfoldable pub check_distribution_run_integrity : DistributionRun → List Discrepancy
check_distribution_run_integrity r =
    (if str_eq r.status "failed" then found distribution_status_invalid error r.offering_id else [])
    ++ (if str_eq r.status "processing"
        then found distribution_status_invalid warning r.offering_id
        else [])

unfoldable pub for_each :
    (DistributionRun → List Discrepancy) → List DistributionRun → List Discrepancy
for_each check [] = []
for_each check (r ∷ rs) = check r ++ for_each check rs

-- `checkPayoutCompleteness` looks at the status and reports nothing either way.
unfoldable pub check_payout_completeness : DistributionRun → List String → List Discrepancy
check_payout_completeness r expected =
    if not (str_eq r.status "completed") && not (str_eq r.status "processing") then [] else []

-- `countFailedPayouts`
abbrev count_failed_payouts : String → ℕ
count_failed_payouts run_id = 0

unfoldable pub failed_payouts : List DistributionRun → ℕ
failed_payouts [] = 0
failed_payouts (r ∷ rs) = count_failed_payouts r.id + failed_payouts rs

module _ {D : Type 0} (num : Double D) where
  abbrev pub default_tolerance : D
  default_tolerance = num.cent

  abbrev pub tolerance_of : Options D → D
  tolerance_of o = elim (o.tolerance) [ none ↦ default_tolerance | some t ↦ t ]

  -- `Math.abs(parseFloat(a) - parseFloat(b))`
  abbrev pub difference : String → String → D
  difference a b = num.abs (num.minus (num.parse_float a) (num.parse_float b))

  abbrev pub amounts_equal : String → String → D → Bool
  amounts_equal a b tolerance = num.le (difference a b) tolerance

  abbrev pub subtract_amounts : String → String → String
  subtract_amounts a b = num.to_fixed (num.minus (num.parse_float a) (num.parse_float b))

  abbrev pub calculate_discrepancy_amount : String → String → String
  calculate_discrepancy_amount a b = num.to_fixed (difference a b)

  unfoldable pub check_revenue_mismatch : String → String → D → List Discrepancy
  check_revenue_mismatch revenue payouts tolerance =
      let diff = difference revenue payouts in
      if num.gt diff tolerance
      then found revenue_mismatch (if num.gt diff num.one then critical else error) ""
      else []

  abbrev pub amount_of : Option String → D
  amount_of none = num.parse_float "0"
  amount_of (some s) = num.parse_float s

  unfoldable pub sum_reports : D → List RevenueReport → D
  sum_reports acc [] = acc
  sum_reports acc (r ∷ rs) = sum_reports (num.plus acc (amount_of r.amount)) rs

  unfoldable pub sum_runs : D → List DistributionRun → D
  sum_runs acc [] = acc
  sum_runs acc (r ∷ rs) = sum_runs (num.plus acc (num.parse_float r.total_amount)) rs

  abbrev pub sum_revenue_amounts : List RevenueReport → String
  sum_revenue_amounts rs = num.to_fixed (sum_reports num.nought rs)

  abbrev pub sum_distribution_amounts : List DistributionRun → String
  sum_distribution_amounts rs = num.to_fixed (sum_runs num.nought (keep is_completed rs))

  unfoldable pub check_allocation : String → ℕ → DistributionRun → List Discrepancy
  check_allocation offering count r =
      let total = num.parse_float r.total_amount in
      if not (is_completed r)
      then []
      else if num.le (num.over total count) num.nought && num.gt total num.nought
      then found investor_allocation_error error offering
      else []

  unfoldable pub check_investor_allocations :
      String → List DistributionRun → List Investment → List Discrepancy
  check_investor_allocations offering runs [] = []
  check_investor_allocations offering runs (i ∷ is) =
      for_each
        (check_allocation offering (length (keep (λ x. str_eq x.status "completed") (i ∷ is)))) runs

  -- More than 0.001 from the nearest number of cents.
  abbrev pub is_off_cents : D → Bool
  is_off_cents total = num.gt (num.abs (num.minus total (num.round_cents total))) num.thousandth

  unfoldable pub check_rounding : DistributionRun → List Discrepancy
  check_rounding r =
      if not (is_completed r)
      then []
      else if is_off_cents (num.parse_float r.total_amount)
      then found rounding_loss_unaccounted warning r.offering_id
      else []

  unfoldable pub reconcile : String → ℕ → ℕ → Options D → Tables → Result
  reconcile offering start end o t =
      let runs = relevant_runs offering start end t in
      let revenue = sum_revenue_amounts (relevant_reports offering start end t) in
      let payouts = sum_distribution_amounts runs in
      let investments = find_investments offering t.investments in
      let investors = investor_ids investments [] in
      let discrepancies =
        check_revenue_mismatch revenue payouts (tolerance_of o)
        ++ (for_each check_distribution_run_integrity runs
            ++ ((if o.check_investor_allocations
                  then check_investor_allocations offering runs investments
                  else [])
                ++ ((if o.check_rounding_adjustments then for_each check_rounding runs else [])
                    ++ for_each (λ r. check_payout_completeness r investors) runs))) in
      record {
        is_balanced =
            not (some_of is_error discrepancies) && not (some_of is_warning discrepancies);
        discrepancies = discrepancies;
        summary = record {
          total_revenue_reported = revenue;
          total_payouts = payouts;
          discrepancy_amount = calculate_discrepancy_amount revenue payouts;
          investor_count = length investors;
          payouts_processed = length (keep is_completed runs);
          payouts_failed = failed_payouts runs;
        };
      }

  -- `quickBalanceCheck`: whether the totals agree, and their difference.
  unfoldable pub quick_balance_check : String → ℕ → ℕ → Tables → Bool × String
  quick_balance_check offering start end t =
      let revenue = sum_revenue_amounts (relevant_reports offering start end t) in
      let payouts = sum_distribution_amounts (relevant_runs offering start end t) in
      (amounts_equal revenue payouts default_tolerance, subtract_amounts revenue payouts)
