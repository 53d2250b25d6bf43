-- ===== src/Investments/Tests.antt =====
-- Investments in one offering.
use implement_offering_valid.Common.{
  String, ◌≡◌, refl, Option, none, some, List, [], ◌∷◌, ℤ, pos, trim,
}
use implement_offering_valid.Catalog.{Offering, find_by_id, row_by_id, map_offering}
use implement_offering_valid.Errors.{validation_error}
use implement_offering_valid.Investments.{
  Investment, CreateInvestmentRequest, thrown, created, create, create_investment,
}

abbrev offerings : String → List Offering
offerings status =
    record {
      id = "o1";
      contract_address = none;
      issuer_user_id = none;
      issuer_id = some "ann";
      status = some status;
      total_raised = none;
      created_at = 1;
      updated_at = 1;
    }
    ∷ []

abbrev request : CreateInvestmentRequest
request = record { investor_id = "bob"; offering_id = "o1"; amount = "5"; asset = "USDC" }

abbrev five : String → Option ℤ
five s = some (pos 50_000_000_000)

abbrev investment : Investment
investment = record {
  id = "i1";
  investor_id = "bob";
  offering_id = "o1";
  amount = "5";
  asset = "USDC";
  status = "pending";
  tx_hash = none;
  created_at = 7;
}

invested :
    create_investment five "i1" 7 request (offerings "open") []
    ≡ (investment ∷ [], created investment)
unfolding create_investment create find_by_id row_by_id map_offering trim
invested = refl

published_is_not_active :
    (create_investment five "i1" 7 request (offerings "published") []).1
    ≡ thrown (validation_error "Offering is not active. Current status: published" none)
unfolding create_investment find_by_id row_by_id map_offering
published_is_not_active = refl
