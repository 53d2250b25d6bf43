-- ===== src/Reports/Tests.antt =====
-- Reports of one offering.
use implement_offering_valid.Common.{
  ℕ, ◌≤◌, String, ◌≡◌, refl, true, false, none, some, List, [], ◌∷◌,
}
use implement_offering_valid.Catalog.{Offering, find_by_id, row_by_id, map_offering}
use implement_offering_valid.Reports.{
  SubmitRevenueReportInput, refused, period_overlaps, submit_report, submit_checked,
  find_overlapping_report,
}
use implement_offering_valid.Reports.Amount.{is_revenue_amount, is_positive, after_digits}
use implement_offering_valid.Reports.Periods.{
  Submission, submit_all, reports_at, no_instant_reported_twice,
}

abbrev offerings : List Offering
offerings =
    record {
      id = "o1";
      contract_address = none;
      issuer_user_id = none;
      issuer_id = some "ann";
      status = some "active";
      total_raised = none;
      created_at = 1;
      updated_at = 1;
    }
    ∷ []

abbrev report : String → ℕ → ℕ → SubmitRevenueReportInput
report amount start end = record {
  offering_id = "o1";
  issuer_id = "ann";
  amount = amount;
  period_start = start;
  period_end = end;
}

abbrev first_report : Submission
first_report = record { offerings = offerings; id = "r1"; now = 30; input = report "10.50" 0 10 }

abbrev overlapping : Submission
overlapping = record { offerings = offerings; id = "r2"; now = 31; input = report "3" 9 20 }

amount_formats :
    (is_revenue_amount "10.50" ≡ true)
    × (is_revenue_amount "10." ≡ false)
    × (is_revenue_amount "-1" ≡ false)
    × (is_positive "0.00" ≡ false)
unfolding is_revenue_amount is_positive after_digits
amount_formats = (refl, refl, refl, refl)

overlap_is_refused :
    (submit_report offerings "r2" 31 (report "3" 9 20) (submit_all (first_report ∷ []) [])).1
    ≡ refused period_overlaps
unfolding submit_report submit_checked submit_all find_by_id row_by_id map_offering
    is_revenue_amount is_positive after_digits find_overlapping_report
overlap_is_refused = refl

no_instant_reported_twice_example :
    reports_at "o1" 9 (submit_all (first_report ∷ overlapping ∷ []) []) ≤ 1
no_instant_reported_twice_example =
    no_instant_reported_twice (first_report ∷ overlapping ∷ []) "o1" 9
