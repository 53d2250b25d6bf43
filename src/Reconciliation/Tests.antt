-- ===== src/Reconciliation/Tests.antt =====
-- Reconciliations over small tables; an amount is read as its whole part.
use Prim.Native.String
use Prim.Native.String.{len}
use implement_offering_valid.Common.{
  ℕ, zero, suc, ◌+◌, neg_part, leb_ℤ, String, ◌≡◌, refl, Bool, true, false, Option, none, some,
  List, [], ◌∷◌, ltb, ℤ, pos, ◌+ℤ◌, ◌-ℤ◌, ltb_ℤ, pos_part, parse_int, newest_first, insert_newest,
  arith,
}
use implement_offering_valid.Catalog.{Offering, find_by_id, row_by_id, map_offering}
use implement_offering_valid.Reports.{
  RevenueReport, SubmitRevenueReportInput, accepted, submit_report, submit_checked, report_of,
  find_overlapping_report, list_by_offering,
}
use implement_offering_valid.Reports.Amount.{is_revenue_amount, is_positive, after_digits}
use implement_offering_valid.Reconciliation.{
  Double, DistributionRun, Tables, Options, list_runs, sum_reports, sum_runs, quick_balance_check,
}
use implement_offering_valid.Reconciliation.Submissions.{
  starts_in_future, when, validate_revenue_report, verify_distribution_run, not_found,
  verify_finds_no_run, validate-submit_report,
}
use implement_offering_valid.Reconciliation.Handlers.{
  Repository, class_of, functions, method_find_by_id, look_up, crashed, signed_in, required, period,
  allowed, Request, handle_reconcile, handle_quick_balance_check, handle_validate_report,
  handle_verify_distribution,
}
use implement_offering_valid.Reconciliation.Entitlement.{
  is_fine, implies, may_read, is_admin, data_for_entitled_only,
}

-- Toy numbers: an amount is the number of its characters, and a share is not less than its total.
strokes : ℕ → String
strokes zero = ""
strokes (suc n) = String.◌++◌ "a" (strokes n)

abbrev toy : Double ℤ
toy = record {
  parse_float = λ s. pos (len s);
  to_fixed = λ z. strokes (pos_part z);
  nought = pos 0;
  one = pos 100;
  cent = pos 1;
  thousandth = pos 0;
  plus = λ a b. a +ℤ b;
  minus = λ a b. a -ℤ b;
  abs = λ z. pos (pos_part z + neg_part z);
  over = λ z n. z;
  round_cents = λ z. z;
  gt = λ a b. ltb_ℤ b a;
  lt = λ a b. ltb_ℤ a b;
  le = λ a b. leb_ℤ a b;
}

abbrev report : RevenueReport
report = record {
  id = "r1";
  offering_id = "o1";
  issuer_id = some "ann";
  amount = some "25";
  period_start = some 0;
  period_end = some 10;
  reported_by = "ann";
  created_at = 11;
}

abbrev run : String → String → DistributionRun
run amount status = record {
  id = "d1";
  offering_id = "o1";
  total_amount = amount;
  status = status;
  distribution_date = 5;
  created_at = 6;
}

abbrev tables : Tables
tables = record { reports = report ∷ []; runs = run "25" "completed" ∷ []; investments = [] }

abbrev options : Options ℤ
options = record {
  tolerance = none;
  check_rounding_adjustments = true;
  check_investor_allocations = true;
}

totals_agree : quick_balance_check toy "o1" 0 10 tables ≡ (true, "")
unfolding quick_balance_check list_by_offering list_runs newest_first insert_newest sum_reports
    sum_runs strokes ◌+ℤ◌ ◌-ℤ◌ parse_int
totals_agree = refl

abbrev offerings : List Offering
offerings =
    record {
      id = "o1";
      contract_address = none;
      issuer_user_id = none;
      issuer_id = some "ann";
      status = some "active";
      total_raised = none;
      created_at = 1;
      updated_at = 1;
    }
    ∷ []

abbrev input : SubmitRevenueReportInput
input = record {
  offering_id = "o1";
  issuer_id = "ann";
  amount = "25";
  period_start = 20;
  period_end = 30;
}

accepts :
    (submit_report offerings "r2" 15 input (report ∷ [])).1 ≡ accepted (report_of "r2" 15 input)
unfolding submit_report submit_checked find_by_id row_by_id map_offering is_revenue_amount
    is_positive after_digits find_overlapping_report
accepts = refl

unsigned : (s : String) → is_revenue_amount s ≡ true → ltb_ℤ (pos (len s)) (pos 0) ≡ false
unsigned s h = ground arith

validate-submit_report_example :
    validate_revenue_report toy 15 "o1" "25" 20 30 (report ∷ []) ≡ when (ltb 15 20) starts_in_future
validate-submit_report_example =
    validate-submit_report toy offerings "r2" 15 input (report ∷ []) (report_of "r2" 15 input)
      unsigned accepts

listed_run_is_not_found :
    verify_distribution_run toy "d1" (run "25" "completed" ∷ []) ≡ not_found ∷ []
listed_run_is_not_found = verify_finds_no_run toy "d1" (run "25" "completed" ∷ []) (refl, tt)

abbrev request : Request ℤ
request = record {
  user = some (record { id = "bob"; role = "issuer" });
  offering_id = some "o1";
  run_id = some "d1";
  amount = some "25";
  period_start = some "0";
  period_end = some "10";
  options = options;
}

abbrev date : String → Option ℕ
date s = elim (parse_int s) [ none ↦ none | some z ↦ some (pos_part z) ]

abbrev never : String → Bool
never s = false

abbrev owner : Request ℤ
owner = record request { user = some (record { id = "ann"; role = "issuer" }) }

abbrev own_functions : Option Repository
own_functions = some (functions (λ id. method_find_by_id (some offerings) id))

-- The owner is answered by a repository of functions, and not by an object of the class.
owner_is_answered :
    (is_fine (handle_quick_balance_check date toy never tables own_functions owner) ≡ true)
    × (is_fine (handle_reconcile date toy never tables own_functions owner) ≡ true)
    × (handle_quick_balance_check date toy never tables (some (class_of offerings)) owner ≡ crashed)
unfolding handle_quick_balance_check handle_reconcile signed_in required period allowed look_up
    method_find_by_id find_by_id row_by_id map_offering parse_int
owner_is_answered = (refl, refl, refl)

data_for_entitled_only_example :
    let entitled = may_read owner.user own_functions owner.offering_id in
    (implies (is_fine (handle_reconcile date toy never tables own_functions owner)) entitled ≡ true)
    × (implies
          (is_fine (handle_quick_balance_check date toy never tables own_functions owner))
          entitled
        ≡ true)
    × (implies
          (is_fine (handle_validate_report date toy never tables 15 own_functions owner))
          entitled
        ≡ true)
    × (implies
          (is_fine (handle_verify_distribution date toy never tables owner))
          (is_admin owner.user)
        ≡ true)
data_for_entitled_only_example = data_for_entitled_only date toy never tables 15 own_functions owner
