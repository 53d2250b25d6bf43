-- ===== src/Investments.antt =====
-- Investments: src/services/investmentService.ts over the offerings, and the table of investments
-- (src/db/repositories/investmentRepository.ts). `parse_float` gives the number that an amount's text
-- begins with, in units of 10⁻¹⁰, and `none` for `NaN`.
pub mod Active
mod Tests
use Prim.Native.String
use implement_offering_valid.Common.{
  ℕ, String, Bool, true, false, ◌&&◌, ◌||◌, not, Option, none, some, List, [], ◌∷◌, ◌++◌,
  if◌then◌else◌, str_eq, is_missing, is_empty, trim, keep, newest_first, skip, first, ℤ, pos, leb_ℤ,
}
use implement_offering_valid.Catalog.{Offering, find_by_id}
use implement_offering_valid.Errors.{AppError, not_found, validation_error}

pub record Investment : Type 0 where
  pub id : String
  pub investor_id : String
  pub offering_id : String
  pub amount : String
  pub asset : String
  pub status : String
  pub tx_hash : Option String
  pub created_at : ℕ

pub record CreateInvestmentInput : Type 0 where
  pub investor_id : String
  pub offering_id : String
  pub amount : String
  pub asset : String
  pub status : Option String
  pub tx_hash : Option String

abbrev or_pending : Option String → String
or_pending none = "pending"
or_pending (some s) = if is_empty s then "pending" else s

-- `InvestmentRepository.create`; `fresh` is the id that the database gives.
abbrev pub row_of : String → ℕ → CreateInvestmentInput → Investment
row_of fresh now input = record {
  id = fresh;
  investor_id = input.investor_id;
  offering_id = input.offering_id;
  amount = input.amount;
  asset = input.asset;
  status = or_pending input.status;
  tx_hash = if is_missing input.tx_hash then none else input.tx_hash;
  created_at = now;
}

unfoldable pub create :
    String → ℕ → CreateInvestmentInput → List Investment → List Investment × Investment
create fresh now input rows = let row = row_of fresh now input in (rows ++ row ∷ [], row)

pub record ListByInvestorOptions : Type 0 where
  pub investor_id : String
  pub offering_id : Option String
  pub limit : Option ℕ
  pub offset : Option ℕ

abbrev is_listed : ListByInvestorOptions → Investment → Bool
is_listed o r =
    str_eq r.investor_id o.investor_id
    && elim (o.offering_id) [ none ↦ true | some id ↦ str_eq r.offering_id id ]

abbrev page : Option ℕ → Option ℕ → List Investment → List Investment
page none none rs = rs
page none (some offset) rs = skip offset rs
page (some limit) none rs = first limit rs
page (some limit) (some offset) rs = first limit (skip offset rs)

unfoldable pub list_by_investor : ListByInvestorOptions → List Investment → List Investment
list_by_investor o rows =
    page o.limit o.offset (newest_first (λ r. r.created_at) (keep (is_listed o) rows))

unfoldable pub find_by_offering : String → List Investment → List Investment
find_by_offering offering_id rows =
    newest_first (λ r. r.created_at) (keep (λ r. str_eq r.offering_id offering_id) rows)

pub record CreateInvestmentRequest : Type 0 where
  pub investor_id : String
  pub offering_id : String
  pub amount : String
  pub asset : String

-- The new investment, or the error that is thrown.
pub data Created : Type 0 where
  thrown : AppError → Created
  created : Investment → Created

abbrev pub is_active : Option String → Bool
is_active none = false
is_active (some s) = not (is_empty s) && (str_eq s "active" || str_eq s "open")

-- In the text of a message; a column that is NULL is `null`.
abbrev or_null : Option String → String
or_null none = "null"
or_null (some s) = s

abbrev is_invalid_amount : Option ℤ → Bool
is_invalid_amount none = true
is_invalid_amount (some z) = leb_ℤ z (pos 0)

abbrev input_of : CreateInvestmentRequest → CreateInvestmentInput
input_of r = record {
  investor_id = r.investor_id;
  offering_id = r.offering_id;
  amount = r.amount;
  asset = r.asset;
  status = some "pending";
  tx_hash = none;
}

unfoldable pub create_investment :
    (String → Option ℤ)
    → String
    → ℕ
    → CreateInvestmentRequest
    → List Offering
    → List Investment
    → List Investment × Created
create_investment parse_float fresh now r offerings rows =
    elim (find_by_id r.offering_id offerings) [
      | none ↦ (
        rows,
        thrown (not_found (String.◌++◌ "Offering " (String.◌++◌ r.offering_id " not found"))),
      )
      | some offering ↦
          if not (is_active offering.status)
          then (
            rows,
            thrown (
                validation_error
                  (String.◌++◌ "Offering is not active. Current status: " (or_null offering.status))
                  none),
          )
          else if is_invalid_amount (parse_float r.amount)
          then (rows, thrown (validation_error "Invalid amount: must be a positive number" none))
          else if is_empty r.asset || is_empty (trim r.asset)
          then (rows, thrown (validation_error "Asset is required" none))
          else let (rows', row) = create fresh now (input_of r) rows in (rows', created row)
    ]
