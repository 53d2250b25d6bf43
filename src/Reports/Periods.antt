-- ===== src/Reports/Periods.antt =====
-- The periods of the reports of one offering.
use implement_offering_valid.Common.{
  ℕ, ◌+◌, ◌≤◌, ◌<◌, String, ◌≡◌, refl, sym, Bool, false, ◌&&◌, Option, none, some, List, [], ◌∷◌,
  ◌++◌, arith, eq_iff, leb, if◌then◌else◌, str_eq, Option-cases, Bool-cases, inl, inr, count_if,
}
use implement_offering_valid.Catalog.{Offering}
use implement_offering_valid.Reports.{
  RevenueReport, is_after, find_overlapping_report, overlaps, SubmitRevenueReportInput,
  submit_checked, submit_report, report_of,
}

abbrev pub is_by : Option ℕ → ℕ → Bool
is_by none t = false
is_by (some s) t = leb s t

-- `covers offering t r`: `r` is a report of the offering, and `t` lies in its period.
abbrev pub covers : String → ℕ → RevenueReport → Bool
covers offering t r =
    str_eq r.offering_id offering && is_by r.period_start t && is_after r.period_end t

-- `reports_at`: the number of reports of an offering that cover an instant.
abbrev pub reports_at : String → ℕ → List RevenueReport → ℕ
reports_at offering t rows = count_if (covers offering t) rows

count_if-append :
    (p : RevenueReport → Bool) (xs : List RevenueReport) (x : RevenueReport)
    → count_if p (xs ++ x ∷ []) ≡ count_if p xs + (if p x then 1 else 0)
count_if-append p [] x = ground arith
count_if-append p (y ∷ xs) x = ground (arith, count_if-append p xs x)

not_covered :
    (offering : String) (start end t : ℕ) (r : RevenueReport)
    → overlaps offering start end r ≡ false
    → start ≤ t
    → t < end
    → covers offering t r ≡ false
not_covered offering start end t r o a b = elim (Option-cases r.period_start) [
  | inl e ↦ rw e (ground arith)
  | inr (s, e) ↦ elim (Option-cases r.period_end) [
    | inl f ↦ rw (e, f) (ground arith)
    | inr (u, f) ↦ ground arith
  ]
]

none_covers :
    (offering : String) (start end t : ℕ) (rows : List RevenueReport)
    → find_overlapping_report offering start end rows ≡ none
    → start ≤ t
    → t < end
    → reports_at offering t rows ≡ 0
unfolding find_overlapping_report
none_covers offering start end t [] h a b = refl
none_covers offering start end t (r ∷ rows) h a b =
    elim (Bool-cases (overlaps offering start end r)) [
      | inl o ↦ absurd (ground arith)
      | inr o ↦
          let rest = none_covers offering start end t rows (ground arith) a b in
          let apart : covers offering t r ≡ false = not_covered offering start end t r o a b in
          rw apart rest
    ]

added_once :
    (offering id : String) (now t : ℕ) (input : SubmitRevenueReportInput)
    (rows : List RevenueReport)
    → reports_at offering t rows ≤ 1
    → find_overlapping_report input.offering_id input.period_start input.period_end rows ≡ none
    → reports_at offering t (rows ++ report_of id now input ∷ []) ≤ 1
added_once offering id now t input rows h e =
    let report = report_of id now input in
    let grown = count_if-append (covers offering t) rows report in
    elim (Bool-cases (covers offering t report)) [
      | inr c ↦ ground (arith, grown)
      | inl c ↦
          let own : input.offering_id ≡ offering =
            ground (arith, eq_iff input.offering_id offering) in
          let zero =
            none_covers input.offering_id input.period_start input.period_end t rows e
              (ground arith) (ground arith) in
          let here : reports_at offering t rows ≡ 0 = rw (sym own) zero in
          ground (arith, grown, here)
    ]

submit_checked_once :
    (id offering : String) (now t : ℕ) (input : SubmitRevenueReportInput)
    (rows : List RevenueReport)
    → reports_at offering t rows ≤ 1
    → reports_at offering t (submit_checked id now input rows).0 ≤ 1
unfolding submit_checked
submit_checked_once id offering now t input rows h =
    elim (Option-cases
      (find_overlapping_report input.offering_id input.period_start input.period_end rows)) [
        | inr (r, e) ↦ ground arith
        | inl e ↦ let grown = added_once offering id now t input rows h e in ground (arith, grown)
      ]

-- A submission keeps the reports apart, whether it is accepted or not.
submit_report_once :
    (offerings : List Offering) (id offering : String) (now t : ℕ)
    (input : SubmitRevenueReportInput) (rows : List RevenueReport)
    → reports_at offering t rows ≤ 1
    → reports_at offering t (submit_report offerings id now input rows).0 ≤ 1
unfolding submit_report
submit_report_once offerings id offering now t input rows h =
    ground (arith, submit_checked_once id offering now t input rows h)

-- A submission: the offerings at that time, the new id, the clock and the input.
pub record Submission : Type 0 where
  pub offerings : List Offering
  pub id : String
  pub now : ℕ
  pub input : SubmitRevenueReportInput

unfoldable pub submit_all : List Submission → List RevenueReport → List RevenueReport
submit_all [] rows = rows
submit_all (s ∷ ss) rows = submit_all ss (submit_report s.offerings s.id s.now s.input rows).0

submit_all_once :
    (submissions : List Submission) (offering : String) (t : ℕ) (rows : List RevenueReport)
    → reports_at offering t rows ≤ 1
    → reports_at offering t (submit_all submissions rows) ≤ 1
unfolding submit_all
submit_all_once [] offering t rows h = h
submit_all_once (s ∷ ss) offering t rows h =
    submit_all_once ss offering t (submit_report s.offerings s.id s.now s.input rows).0
      (submit_report_once s.offerings s.id offering s.now t s.input rows h)

-- Revenue is reported once: after any submissions, one after the other and starting from an empty
-- table, no instant lies in the periods of two reports of one offering.
pub no_instant_reported_twice :
    (submissions : List Submission) (offering : String) (t : ℕ)
    → reports_at offering t (submit_all submissions []) ≤ 1
no_instant_reported_twice submissions offering t =
    submit_all_once submissions offering t [] (omega arith)
