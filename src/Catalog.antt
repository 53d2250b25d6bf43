-- ===== src/Catalog.antt =====
-- The offerings table (src/db/repositories/offeringRepository.ts): a query is the operation on the
-- rows that its text spells. Where a method is written more than once, the last one is modelled, as
-- JavaScript takes it. Of a row, the columns that the code reads.
pub mod Updates
mod Tests
use implement_offering_valid.Common.{
  ℕ, zero, suc, ◌-◌, String, Bool, true, false, ◌&&◌, ◌||◌, not, Option, none, some, List, [], ◌∷◌,
  ltb, leb, if◌then◌else◌, str_eq, is_missing, keep, map, newest_first, skip, first,
}

pub record Offering : Type 0 where
  pub id : String
  pub contract_address : Option String
  pub issuer_user_id : Option String
  pub issuer_id : Option String
  pub status : Option String
  pub total_raised : Option String
  pub created_at : ℕ
  pub updated_at : ℕ

abbrev pub is_given : Option String → Bool
is_given none = false
is_given (some s) = true

-- `a ?? b`
abbrev pub or_else : Option String → Option String → Option String
or_else none b = b
or_else (some a) b = some a

unfoldable pub map_offering : Offering → Offering
map_offering r =
    if is_missing r.issuer_id && is_given r.issuer_user_id
    then record r { issuer_id = r.issuer_user_id }
    else r

abbrev pub mapped : Option Offering → Option Offering
mapped none = none
mapped (some r) = some (map_offering r)

-- `WHERE id = $1 LIMIT 1`
unfoldable pub row_by_id : String → List Offering → Option Offering
row_by_id id [] = none
row_by_id id (r ∷ rs) = if str_eq r.id id then some r else row_by_id id rs

unfoldable pub find_by_id : String → List Offering → Option Offering
find_by_id id rows = mapped (row_by_id id rows)

abbrev pub same : Option String → String → Bool
same none b = false
same (some a) b = str_eq a b

-- `WHERE contract_address = $1 LIMIT 1`
unfoldable pub find_by_contract_address : String → List Offering → Option Offering
find_by_contract_address address [] = none
find_by_contract_address address (r ∷ rs) =
    if same r.contract_address address
    then some (map_offering r)
    else find_by_contract_address address rs

unfoldable pub list_all : List Offering → List Offering
list_all rows = map map_offering (newest_first (λ r. r.created_at) rows)

pub record ListOfferingsFilters : Type 0 where
  pub status : Option String
  pub limit : Option ℕ
  pub offset : Option ℕ

abbrev pub is_selected : String → Option String → Offering → Bool
is_selected issuer none r = same r.issuer_user_id issuer || same r.issuer_id issuer
is_selected issuer (some status) r =
    (same r.issuer_user_id issuer || same r.issuer_id issuer) && same r.status status

abbrev page : Option ℕ → Option ℕ → List Offering → List Offering
page none none rs = rs
page none (some offset) rs = skip offset rs
page (some limit) none rs = first limit rs
page (some limit) (some offset) rs = first limit (skip offset rs)

unfoldable pub list_by_issuer : String → ListOfferingsFilters → List Offering → List Offering
list_by_issuer issuer filters rows = map map_offering (
    page filters.limit filters.offset
      (newest_first (λ r. r.created_at) (keep (is_selected issuer filters.status) rows)))

pub record UpdateOfferingStateInput : Type 0 where
  pub status : Option String
  pub total_raised : Option String

-- The fields that are given take the new value.
abbrev pub set_fields : ℕ → UpdateOfferingStateInput → Offering → Offering
set_fields now input r = record r {
  status = or_else input.status r.status;
  total_raised = or_else input.total_raised r.total_raised;
  updated_at = now;
}

unfoldable pub update_row : ℕ → String → UpdateOfferingStateInput → List Offering → List Offering
update_row now id input [] = []
update_row now id input (r ∷ rs) =
    (if str_eq r.id id then set_fields now input r else r) ∷ update_row now id input rs

unfoldable pub update_state :
    ℕ → String → UpdateOfferingStateInput → List Offering → List Offering × Option Offering
update_state now id input rows =
    if not (is_given input.status || is_given input.total_raised)
    then (rows, find_by_id id rows)
    else let updated = update_row now id input rows in (updated, find_by_id id updated)

unfoldable pub update_status : ℕ → String → String → List Offering → List Offering × Option Offering
update_status now id status rows =
    let updated = update_row now id (record { status = some status; total_raised = none }) rows in
    (updated, find_by_id id updated)

unfoldable pub is_owner : String → String → List Offering → Bool
is_owner offering_id issuer_id rows = elim (find_by_id offering_id rows) [
  | none ↦ false
  | some offering ↦ same (or_else offering.issuer_id offering.issuer_user_id) issuer_id
]
