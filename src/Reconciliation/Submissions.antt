-- ===== src/Reconciliation/Submissions.antt =====
-- The checks of single records: `validateRevenueReport` and `verifyDistributionRun`.
use mathlib.Core.List.{append-nil}
use implement_offering_valid.Common.{
  ℕ, ◌<◌, String, ◌≡◌, refl, Bool, true, false, ◌||◌, not, Option, none, some, List, [], ◌∷◌, ◌++◌,
  arith, ltb, leb, if◌then◌else◌, str_eq, Option-cases, Bool-cases, inl, inr, All, keep, is_empty,
  newest_first,
}
use implement_offering_valid.Catalog.{Offering}
use implement_offering_valid.Reports.{
  RevenueReport, find_by_offering_and_period, find_overlapping_report, SubmitRevenueReportInput,
  accepted, submit_checked, submit_report, overlaps,
}
use implement_offering_valid.Reports.Amount.{is_revenue_amount}
use implement_offering_valid.Reconciliation.{Double, DistributionRun, list_runs}

pub data ReportProblem : Type 0 where
  amount_negative period_reversed starts_in_future already_exists : ReportProblem

abbrev pub when : {A : Type 0} → Bool → A → List A
when b e = if b then e ∷ [] else []

-- The errors that `validateRevenueReport` collects; the report is valid where there is none.
unfoldable pub validate_revenue_report :
    {D : Type 0} → Double D → ℕ → String → String → ℕ → ℕ → List RevenueReport → List ReportProblem
validate_revenue_report num now offering amount start end reports =
    when (num.lt (num.parse_float amount) num.nought) amount_negative
    ++ (when (leb end start) period_reversed
        ++ (when (ltb now start) starts_in_future
            ++ elim (find_by_offering_and_period offering start end reports) [
              | none ↦ []
              | some r ↦ already_exists ∷ []
            ]))

pub data RunProblem : Type 0 where
  not_found invalid_status total_negative : RunProblem

abbrev pub is_valid_distribution_status : String → Bool
is_valid_distribution_status s =
    str_eq s "pending" || str_eq s "processing" || str_eq s "completed" || str_eq s "failed"

unfoldable pub find_run : String → List DistributionRun → Option DistributionRun
find_run id [] = none
find_run id (r ∷ rs) = if str_eq r.id id then some r else find_run id rs

-- The errors that `verifyDistributionRun` collects: it looks among the runs of the offering with the
-- empty id.
unfoldable pub verify_distribution_run :
    {D : Type 0} → Double D → String → List DistributionRun → List RunProblem
verify_distribution_run num run_id runs = elim (find_run run_id (list_runs "" runs)) [
  | none ↦ not_found ∷ []
  | some r ↦
      when (not (is_valid_distribution_status r.status)) invalid_status
      ++ when (num.lt (num.parse_float r.total_amount) num.nought) total_negative
]

exact_overlaps :
    (offering : String) (start end : ℕ) (rows : List RevenueReport)
    → start < end
    → find_overlapping_report offering start end rows ≡ none
    → find_by_offering_and_period offering start end rows ≡ none
unfolding find_overlapping_report find_by_offering_and_period
exact_overlaps offering start end [] l h = refl
exact_overlaps offering start end (r ∷ rows) l h =
    elim (Bool-cases (overlaps offering start end r)) [
      | inl o ↦ absurd (ground arith)
      | inr o ↦
          let rest = exact_overlaps offering start end rows l (ground arith) in
          elim (Option-cases r.period_start) [
            | inl e ↦ rw e (ground arith)
            | inr (s, e) ↦ elim (Option-cases r.period_end) [
              | inl f ↦ rw (e, f) (ground arith)
              | inr (u, f) ↦ ground arith
            ]
          ]
    ]

accepted_checks :
    (id : String) (now : ℕ) (input : SubmitRevenueReportInput) (reports : List RevenueReport)
    (r : RevenueReport)
    → (submit_checked id now input reports).1 ≡ accepted r
    → (is_revenue_amount input.amount ≡ true)
      × (input.period_start < input.period_end)
      × (find_overlapping_report input.offering_id input.period_start input.period_end reports
          ≡ none)
unfolding submit_checked
accepted_checks id now input reports r h =
    elim (Option-cases
      (find_overlapping_report input.offering_id input.period_start input.period_end reports)) [
        | inl e ↦ (ground arith, ground arith, e)
        | inr (x, e) ↦ absurd (ground arith)
      ]

checked_of_accepted :
    (offerings : List Offering) (id : String) (now : ℕ) (input : SubmitRevenueReportInput)
    (reports : List RevenueReport) (r : RevenueReport)
    → (submit_report offerings id now input reports).1 ≡ accepted r
    → (submit_checked id now input reports).1 ≡ accepted r
unfolding submit_report
checked_of_accepted offerings id now input reports r h = ground arith

-- A report that the service accepts is one that the validation passes, but for a start in the future,
-- which only the validation looks at: where `parseFloat` reads no amount of the accepted form as
-- negative, the validation finds that problem or none.
pub validate-submit_report :
    {D : Type 0} (num : Double D) (offerings : List Offering) (id : String) (now : ℕ)
    (input : SubmitRevenueReportInput) (reports : List RevenueReport) (r : RevenueReport)
    → ((s : String) → is_revenue_amount s ≡ true → num.lt (num.parse_float s) num.nought ≡ false)
    → (submit_report offerings id now input reports).1 ≡ accepted r
    → validate_revenue_report num now input.offering_id input.amount input.period_start
        input.period_end reports
      ≡ when (ltb now input.period_start) starts_in_future
unfolding validate_revenue_report
validate-submit_report num offerings id now input reports r unsigned h =
    let (format, order, free) =
      accepted_checks id now input reports r
        (checked_of_accepted offerings id now input reports r h) in
    let forward : leb input.period_end input.period_start ≡ false = ground arith in
    let fresh =
      exact_overlaps input.offering_id input.period_start input.period_end reports order free in
    rw (validate_revenue_report, unsigned input.amount format, forward, fresh) (append-nil _)

none_kept :
    (runs : List DistributionRun)
    → All (λ r. is_empty r.offering_id ≡ false) runs
    → keep (λ r. str_eq r.offering_id "") runs ≡ []
none_kept [] h = refl
none_kept (r ∷ runs) h = ground (arith, none_kept runs h.1)

-- Where every run belongs to an offering with an id, `verifyDistributionRun` says of each of them that
-- it was not found, whatever its status and amount.
pub verify_finds_no_run :
    {D : Type 0} (num : Double D) (run_id : String) (runs : List DistributionRun)
    → All (λ r. is_empty r.offering_id ≡ false) runs
    → verify_distribution_run num run_id runs ≡ not_found ∷ []
unfolding verify_distribution_run list_runs newest_first find_run
verify_finds_no_run num run_id runs h =
    rw (verify_distribution_run, list_runs, none_kept runs h) refl
