-- ===== src/Reconciliation/Handlers.antt =====
-- The handlers of the reconciliation routes (src/routes/reconciliationRoutes.ts). The values of a
-- request are texts, `none` where one is absent; `parse_date` gives the instant that `new Date` reads,
-- `is_nan` says where `parseFloat` finds no number, and `offerings` is `none` where no repository is
-- given.
use implement_offering_valid.Common.{
  ℕ, String, Bool, ◌||◌, not, Option, none, some, List, leb, if◌then◌else◌, str_eq, is_empty,
}
use implement_offering_valid.Catalog.{Offering, find_by_id, same, or_else}
use implement_offering_valid.Errors.{AppError, unauthorized, validation_error, not_found, forbidden}
use implement_offering_valid.Reconciliation.{
  Double, Tables, Options, Result, reconcile, quick_balance_check,
}
use implement_offering_valid.Reconciliation.Submissions.{
  ReportProblem, RunProblem, validate_revenue_report, verify_distribution_run,
}

-- What `findById` comes to; a method that is called without its object has no `this` and throws.
pub data Lookup : Type 0 where
  found : Offering → Lookup
  absent type_error : Lookup

-- The repository that the handlers are given: an object of the class `OfferingRepository`, as `index.ts`
-- passes it, or an object whose functions do not use `this`.
pub data Repository : Type 0 where
  class_of : List Offering → Repository
  functions : (String → Lookup) → Repository

abbrev as_lookup : Option Offering → Lookup
as_lookup none = absent
as_lookup (some o) = found o

-- `OfferingRepository.findById`, `this` being the first argument.
unfoldable pub method_find_by_id : Option (List Offering) → String → Lookup
method_find_by_id none id = type_error
method_find_by_id (some rows) id = as_lookup (find_by_id id rows)

-- `(offeringRepo.findById ?? offeringRepo.getById)(offeringId)`: what is called is the bare function.
unfoldable pub look_up : Repository → String → Lookup
look_up (class_of rows) id = method_find_by_id none id
look_up (functions f) id = f id

pub record User : Type 0 where
  pub id : String
  pub role : String

pub record Request (D : Type 0) : Type 0 where
  pub user : Option User
  pub offering_id : Option String
  pub run_id : Option String
  pub amount : Option String
  pub period_start : Option String
  pub period_end : Option String
  pub options : Options D

-- What a handler does: it passes an error on, an application error or a `TypeError`, or answers with data
-- and the status 200.
pub data Checked (A : Type 0) : Type 0 where
  crashed : Checked A
  raised : AppError → Checked A
  fine : A → Checked A

-- `if (!text) throw error`
unfoldable pub required : {B : Type 0} → Option String → AppError → (String → Checked B) → Checked B
required none e next = raised e
required (some s) e next = if is_empty s then raised e else next s

-- `if (!user?.id) throw Errors.unauthorized(...)`
unfoldable pub signed_in : {B : Type 0} → Option User → (User → Checked B) → Checked B
signed_in none next = raised (unauthorized "Authentication required")
signed_in (some user) next =
    if is_empty user.id then raised (unauthorized "Authentication required") else next user

unfoldable pub allowed :
    {B : Type 0} → User → Option Repository → String → (refusal : String) → Checked B → Checked B
allowed user none offering_id refusal next = next
allowed user (some repository) offering_id refusal next =
    if str_eq user.role "admin" then next else elim (look_up repository offering_id) [
      | type_error ↦ crashed
      | absent ↦ raised (not_found "Offering not found")
      | found o ↦
          if not (same (or_else o.issuer_id o.issuer_user_id) user.id)
          then raised (forbidden refusal)
          else next
    ]

module _ (parse_date : String → Option ℕ) where
  -- Both ends of a period, `missing` and `invalid` being the messages.
  unfoldable pub period :
      {B : Type 0} {D : Type 0}
      → Request D
      → (missing invalid : String) → (ℕ → ℕ → Checked B)
      → Checked B
  period r missing invalid next = required r.period_start (validation_error missing none) (λ s.
      required r.period_end (validation_error missing none) (λ e. elim (parse_date s) [
        | none ↦ raised (validation_error invalid none)
        | some start ↦ elim (parse_date e) [
          | none ↦ raised (validation_error invalid none)
          | some end ↦ next start end
        ]
      ]))

  module _ {D : Type 0} (num : Double D) (is_nan : String → Bool) (tables : Tables) where
    unfoldable pub handle_reconcile : Option Repository → Request D → Checked Result
    handle_reconcile offerings r = signed_in r.user (λ user.
        required r.offering_id (validation_error "offeringId is required and must be a string" none)
          (λ id.
            period r "periodStart and periodEnd are required"
              "Invalid date format for periodStart or periodEnd"
              (λ start end.
                if leb end start
                then raised (validation_error "periodEnd must be after periodStart" none)
                else allowed user offerings id "Not authorized to reconcile this offering"
                    (fine (reconcile num id start end r.options tables)))))

    unfoldable pub handle_quick_balance_check :
        Option Repository → Request D → Checked (Bool × String)
    handle_quick_balance_check offerings r = signed_in r.user (λ user.
        required r.offering_id (validation_error "offeringId is required" none) (λ id.
          period r "periodStart and periodEnd query params are required" "Invalid date format"
            (λ start end.
              allowed user offerings id "Not authorized to check this offering"
                (fine (quick_balance_check num id start end tables)))))

    unfoldable pub handle_verify_distribution : Request D → Checked (List RunProblem)
    handle_verify_distribution r = signed_in r.user (λ user.
        required r.run_id (validation_error "runId is required" none) (λ id.
          if not (str_eq user.role "admin")
          then raised (forbidden "Admin role required to verify distribution runs")
          else fine (verify_distribution_run num id tables.runs)))

    unfoldable pub handle_validate_report :
        ℕ → Option Repository → Request D → Checked (List ReportProblem)
    handle_validate_report now offerings r = signed_in r.user (λ user.
        required r.offering_id (validation_error "offeringId is required" none) (λ id.
          required r.amount (validation_error "amount is required and must be a string" none)
            (λ amount.
              if is_nan amount || num.lt (num.parse_float amount) num.nought
              then raised (validation_error "amount must be a non-negative number" none)
              else period r "periodStart and periodEnd are required" "Invalid date format"
                  (λ start end.
                    allowed user offerings id "Not authorized for this offering" (
                      fine (validate_revenue_report num now id amount start end tables.reports))))))
