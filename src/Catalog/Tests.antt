-- ===== src/Catalog/Tests.antt =====
-- The offerings table with two rows.
use implement_offering_valid.Common.{
  String, ◌≡◌, refl, true, none, some, List, [], ◌∷◌, newest_first, insert_newest, first,
}
use implement_offering_valid.Catalog.{
  Offering, find_by_id, row_by_id, map_offering, is_owner, update_status, update_row,
  list_by_issuer,
}

abbrev offering : String → String → Offering
offering id issuer = record {
  id = id;
  contract_address = some "C1";
  issuer_user_id = some issuer;
  issuer_id = none;
  status = some "draft";
  total_raised = some "0";
  created_at = 1;
  updated_at = 1;
}

abbrev rows : List Offering
rows = offering "o1" "ann" ∷ offering "o2" "bob" ∷ []

owned_by_user_id : is_owner "o2" "bob" rows ≡ true
unfolding is_owner find_by_id row_by_id map_offering
owned_by_user_id = refl

updated_row_is_returned :
    (update_status 7 "o1" "active" rows).1
    ≡ some (record (offering "o1" "ann") {
      issuer_id = some "ann";
      status = some "active";
      updated_at = 7;
    })
unfolding update_status update_row find_by_id row_by_id map_offering
updated_row_is_returned = refl

first_of_issuer :
    list_by_issuer "bob" (record { status = none; limit = some 1; offset = none }) rows
    ≡ map_offering (offering "o2" "bob") ∷ []
unfolding list_by_issuer newest_first insert_newest first map_offering
first_of_issuer = refl
