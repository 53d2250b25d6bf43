-- ===== src/Sync/Tests.antt =====
-- Synchronisation of one of two offerings.
use implement_offering_valid.Common.{
  is_missing, String, ◌≡◌, refl, true, false, none, some, List, [], ◌∷◌,
}
use implement_offering_valid.Catalog.{
  Offering, find_by_id, row_by_id, map_offering, update_state, update_row,
}
use implement_offering_valid.Sync.{
  OnChainOfferingState, or_blank, ChainAnswer, state_of, throws, sync_offering, sync_from_chain,
}
use implement_offering_valid.Sync.Convergence.{sync_offering_converges}

abbrev offering : String → Offering
offering id = record {
  id = id;
  contract_address = some "C1";
  issuer_user_id = some "ann";
  issuer_id = none;
  status = some "draft";
  total_raised = some "0";
  created_at = 1;
  updated_at = 1;
}

abbrev rows : List Offering
rows = offering "o1" ∷ offering "o2" ∷ []

abbrev chain : String → ChainAnswer
chain address = state_of (record { status = "active"; total_raised = "25" })

abbrev silent_chain : String → ChainAnswer
silent_chain address = throws "timeout"

failure_is_reported : (sync_offering silent_chain none 5 "o1" rows).1.success ≡ false
unfolding sync_offering sync_from_chain find_by_id row_by_id map_offering
failure_is_reported = refl

synced : (sync_offering chain none 5 "o1" rows).1.success ≡ true
unfolding sync_offering sync_from_chain find_by_id row_by_id map_offering update_state update_row
synced = refl

sync_offering_converges_example :
    let rows' = (sync_offering chain none 5 "o1" rows).0 in
    let again = sync_offering chain (some "down") 9 "o1" rows' in
    (o : Offering) × (st : OnChainOfferingState) × (find_by_id "o1" rows' ≡ some o)
    × (is_missing o.contract_address ≡ false)
    × (chain (or_blank o.contract_address) ≡ state_of st)
    × (o.status ≡ some st.status)
    × (o.total_raised ≡ some st.total_raised)
    × (again.0 ≡ rows')
    × (again.1.success ≡ true)
    × (again.1.updated ≡ false)
    × (find_by_id "o2" rows' ≡ find_by_id "o2" rows)
sync_offering_converges_example =
    sync_offering_converges chain none (some "down") 5 9 "o1" "o2" rows refl synced
