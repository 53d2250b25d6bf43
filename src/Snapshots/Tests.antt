-- ===== src/Snapshots/Tests.antt =====
-- Snapshots of one offering from its investments.
use implement_offering_valid.Common.{
  ℕ, String, ◌≡◌, refl, true, not, Option, none, some, List, [], ◌∷◌, str_eq, parse_int, pos_part,
  newest_first, lookup, insert,
}
use implement_offering_valid.Catalog.{Offering, find_by_id, row_by_id, map_offering}
use implement_offering_valid.Snapshots.{
  auto, stellar, SnapshotBalancesInput, thrown, stellar_not_configured, balances, Service,
  HolderInvestment, snapshot_balances, take_snapshot, existing, resolve_effective_source,
  get_balances_from_db, get_balances_from_stellar, normalize_balances, find_by_offering_and_period,
  balances_from_investments, add_investments,
}
use implement_offering_valid.Snapshots.Idempotence.{is_done, snapshot_taken_once}

abbrev investment : String → String → String → HolderInvestment
investment investor status amount = record {
  investor_id = investor;
  status = status;
  amount = amount;
}

abbrev investments : List HolderInvestment
investments =
    investment "ann" "completed" "5"
    ∷ investment "bob" "pending" "7"
    ∷ investment "ann" "completed" "2"
    ∷ []

abbrev number : String → Option ℕ
number s = elim (parse_int s) [ none ↦ none | some z ↦ some (pos_part z) ]

abbrev show : ℕ → String
show n = "7"

added_up : add_investments number investments [] ≡ ("ann", 7) ∷ []
unfolding add_investments parse_int lookup insert
added_up = refl

abbrev service : Service
service = record {
  get_holder_balances = none;
  get_balances =
      some (λ offering period. balances (balances_from_investments number show investments));
  is_positive = λ s. not (str_eq s "0");
}

abbrev offerings : List Offering
offerings =
    record {
      id = "o1";
      contract_address = none;
      issuer_user_id = none;
      issuer_id = some "ann";
      status = some "active";
      total_raised = none;
      created_at = 1;
      updated_at = 1;
    }
    ∷ []

abbrev input : SnapshotBalancesInput
input = record {
  offering_id = "o1";
  period_id = "2026-01";
  snapshot_at = none;
  source = auto;
  skip_if_exists = true;
}

no_client :
    (snapshot_balances service true 5 (record input { source = stellar }) offerings []).1
    ≡ thrown stellar_not_configured
unfolding snapshot_balances find_by_id row_by_id map_offering existing find_by_offering_and_period
    newest_first take_snapshot resolve_effective_source get_balances_from_stellar
no_client = refl

taken : is_done (snapshot_balances service true 5 input offerings []).1 ≡ true
unfolding snapshot_balances find_by_id row_by_id map_offering existing find_by_offering_and_period
    newest_first take_snapshot resolve_effective_source get_balances_from_db normalize_balances
    balances_from_investments add_investments parse_int lookup insert
taken = refl

snapshot_taken_once_example :
    let rows' = (snapshot_balances service true 5 input offerings []).0 in
    (snapshot_balances service true 9 input offerings rows').0 ≡ rows'
snapshot_taken_once_example =
    snapshot_taken_once service true true 5 9 input input offerings offerings [] taken refl refl
      refl
