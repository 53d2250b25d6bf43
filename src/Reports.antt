-- ===== src/Reports.antt =====
-- Revenue reports: the service (src/services/revenueService.ts) over its table
-- (src/db/repositories/revenueReportRepository.ts) and the offerings. Of a row, the columns that the
-- code reads; the new id and the clock are arguments.
pub mod Amount
pub mod Periods
mod Tests
use implement_offering_valid.Common.{
  ℕ, String, Bool, true, false, ◌&&◌, not, Option, none, some, List, [], ◌∷◌, ◌++◌, ltb, leb, ◌==◌,
  if◌then◌else◌, str_eq, is_empty, keep, newest_first,
}
use implement_offering_valid.Catalog.{Offering, find_by_id, same}
use implement_offering_valid.Reports.Amount.{is_revenue_amount, is_positive}

pub record RevenueReport : Type 0 where
  pub id : String
  pub offering_id : String
  pub issuer_id : Option String
  pub amount : Option String
  pub period_start : Option ℕ
  pub period_end : Option ℕ
  pub reported_by : String
  pub created_at : ℕ

-- A comparison with NULL does not select a row.
abbrev pub is_before : Option ℕ → ℕ → Bool
is_before none t = false
is_before (some s) t = ltb s t

abbrev pub is_after : Option ℕ → ℕ → Bool
is_after none t = false
is_after (some s) t = ltb t s

abbrev pub is_at : Option ℕ → ℕ → Bool
is_at none t = false
is_at (some s) t = s == t

unfoldable pub find_by_offering_and_period :
    String → ℕ → ℕ → List RevenueReport → Option RevenueReport
find_by_offering_and_period offering start end [] = none
find_by_offering_and_period offering start end (r ∷ rs) =
    if str_eq r.offering_id offering && is_at r.period_start start && is_at r.period_end end
    then some r
    else find_by_offering_and_period offering start end rs

abbrev pub overlaps : String → ℕ → ℕ → RevenueReport → Bool
overlaps offering start end r =
    str_eq r.offering_id offering && is_before r.period_start end && is_after r.period_end start

unfoldable pub find_overlapping_report : String → ℕ → ℕ → List RevenueReport → Option RevenueReport
find_overlapping_report offering start end [] = none
find_overlapping_report offering start end (r ∷ rs) =
    if overlaps offering start end r then some r else find_overlapping_report offering start end rs

unfoldable pub list_by_offering : String → List RevenueReport → List RevenueReport
list_by_offering offering rows =
    newest_first (λ r. r.created_at) (keep (λ r. str_eq r.offering_id offering) rows)

pub record SubmitRevenueReportInput : Type 0 where
  pub offering_id : String
  pub issuer_id : String
  pub amount : String
  pub period_start : ℕ
  pub period_end : ℕ

-- The errors that `submitReport` throws, in the order of its checks.
pub data ReportError : Type 0 where
  offering_not_found not_owner amount_malformed amount_not_positive : ReportError
  period_invalid period_overlaps : ReportError

pub data Submitted : Type 0 where
  refused : ReportError → Submitted
  accepted : RevenueReport → Submitted

abbrev pub report_of : String → ℕ → SubmitRevenueReportInput → RevenueReport
report_of id now input = record {
  id = id;
  offering_id = input.offering_id;
  issuer_id = some input.issuer_id;
  amount = some input.amount;
  period_start = some input.period_start;
  period_end = some input.period_end;
  reported_by = input.issuer_id;
  created_at = now;
}

-- Steps 2 to 5.
unfoldable pub submit_checked :
    String → ℕ → SubmitRevenueReportInput → List RevenueReport → List RevenueReport × Submitted
submit_checked id now input reports =
    if not (is_revenue_amount input.amount)
    then (reports, refused amount_malformed)
    else if not (is_positive input.amount)
    then (reports, refused amount_not_positive)
    else if leb input.period_end input.period_start
    then (reports, refused period_invalid)
    else elim (find_overlapping_report input.offering_id input.period_start input.period_end
        reports) [
          | some r ↦ (reports, refused period_overlaps)
          | none ↦ let report = report_of id now input in (reports ++ report ∷ [], accepted report)
        ]

unfoldable pub submit_report :
    List Offering
    → String
    → ℕ
    → SubmitRevenueReportInput
    → List RevenueReport
    → List RevenueReport × Submitted
submit_report offerings id now input reports = elim (find_by_id input.offering_id offerings) [
  | none ↦ (reports, refused offering_not_found)
  | some offering ↦
      if not (same offering.issuer_id input.issuer_id)
      then (reports, refused not_owner)
      else submit_checked id now input reports
]
