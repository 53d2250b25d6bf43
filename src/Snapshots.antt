-- ===== src/Snapshots.antt =====
-- Balance snapshots (src/services/balanceSnapshotService.ts) over the table of snapshots
-- (src/db/repositories/balanceSnapshotRepository.ts). The chain's client and the provider of balances are
-- parameters, as is `is_positive`, which says of a text that `Number` of it is a positive number;
-- `commits` says whether the transaction of the inserts does.
pub mod Idempotence
pub mod Aggregation
mod Tests
use implement_offering_valid.Common.{
  ℕ, ◌+◌, String, Bool, true, false, ◌&&◌, not, Option, none, some, List, [], ◌∷◌, ◌++◌,
  if◌then◌else◌, str_eq, leb, is_missing, is_empty, keep, map, newest_first, Dict, lookup, insert,
}
use implement_offering_valid.Catalog.{Offering, find_by_id}

pub record HolderBalance : Type 0 where
  pub holder_address_or_id : String
  pub balance : String

pub record TokenBalanceSnapshot : Type 0 where
  pub offering_id : String
  pub period_id : String
  pub holder_address_or_id : String
  pub balance : String
  pub snapshot_at : ℕ
  pub created_at : ℕ

pub data BalanceSourceType : Type 0 where
  stellar db auto : BalanceSourceType

-- `Exclude<BalanceSourceType, 'auto'>`
pub data EffectiveSource : Type 0 where
  from_stellar from_db : EffectiveSource

pub record SnapshotBalancesInput : Type 0 where
  pub offering_id : String
  pub period_id : String
  pub snapshot_at : Option ℕ
  pub source : BalanceSourceType
  pub skip_if_exists : Bool

pub data SnapshotError : Type 0 where
  offering_id_required period_id_required : SnapshotError
  offering_not_found no_contract_address no_balances : String → SnapshotError
  db_not_configured stellar_not_configured : SnapshotError
  provider_failed insert_failed : SnapshotError

pub data Outcome (A : Type 0) : Type 0 where
  thrown : SnapshotError → Outcome A
  done : A → Outcome A

pub record SnapshotBalancesResult : Type 0 where
  pub offering_id : String
  pub period_id : String
  pub snapshots : List TokenBalanceSnapshot
  pub from_source : EffectiveSource

-- `ORDER BY snapshot_at DESC, created_at DESC`
unfoldable pub find_by_offering_and_period :
    String → String → List TokenBalanceSnapshot → List TokenBalanceSnapshot
find_by_offering_and_period offering period rows =
    newest_first (λ r. r.snapshot_at)
      (newest_first (λ r. r.created_at)
        (keep (λ r. str_eq r.offering_id offering && str_eq r.period_id period) rows))

-- A provider gives balances, or throws.
pub data Fetched : Type 0 where
  failed : Fetched
  balances : List HolderBalance → Fetched

pub record Service : Type 0 where
  pub get_holder_balances : Option (String → String → Fetched)
  pub get_balances : Option (String → String → Fetched)
  pub is_positive : String → Bool

unfoldable pub normalize_balances : (String → Bool) → List HolderBalance → List HolderBalance
normalize_balances is_positive bs =
    keep (λ b. not (is_empty b.holder_address_or_id) && is_positive b.balance) bs

abbrev is_given : {A : Type 0} → Option A → Bool
is_given none = false
is_given (some a) = true

abbrev fetched : (String → Bool) → Fetched → Outcome (List HolderBalance)
fetched is_positive failed = thrown provider_failed
fetched is_positive (balances bs) = done (normalize_balances is_positive bs)

abbrev or_blank : Option String → String
or_blank none = ""
or_blank (some s) = s

abbrev or_now : Option ℕ → ℕ → ℕ
or_now none now = now
or_now (some t) now = t

module _ (service : Service) where
  unfoldable pub resolve_effective_source : BalanceSourceType → EffectiveSource
  resolve_effective_source auto = if is_given service.get_balances then from_db else from_stellar
  resolve_effective_source db = from_db
  resolve_effective_source stellar = from_stellar

  unfoldable pub get_balances_from_db : String → String → Outcome (List HolderBalance)
  get_balances_from_db offering_id period_id = elim (service.get_balances) [
    | none ↦ thrown db_not_configured
    | some provider ↦ fetched service.is_positive (provider offering_id period_id)
  ]

  unfoldable pub get_balances_from_stellar : Offering → String → Outcome (List HolderBalance)
  get_balances_from_stellar offering period_id = elim (service.get_holder_balances) [
    | none ↦ thrown stellar_not_configured
    | some client ↦
        if is_missing offering.contract_address
        then thrown (no_contract_address offering.id)
        else fetched service.is_positive (client (or_blank offering.contract_address) period_id)
  ]

  -- `resolveSourceForRun`, then the balances of that source: each of the two asks whether it is there.
  abbrev balances_of : EffectiveSource → Offering → String → Outcome (List HolderBalance)
  balances_of from_db offering period_id = get_balances_from_db offering.id period_id
  balances_of from_stellar offering period_id = get_balances_from_stellar offering period_id

  abbrev row_of : Offering → String → ℕ → ℕ → HolderBalance → TokenBalanceSnapshot
  row_of offering period_id at now b = record {
    offering_id = offering.id;
    period_id = period_id;
    holder_address_or_id = b.holder_address_or_id;
    balance = b.balance;
    snapshot_at = at;
    created_at = now;
  }

  -- The inserts, in one transaction.
  abbrev insert_all :
      (commits : Bool)
      → ℕ
      → SnapshotBalancesInput
      → Offering
      → EffectiveSource
      → List HolderBalance
      → List TokenBalanceSnapshot
      → List TokenBalanceSnapshot × Outcome SnapshotBalancesResult
  insert_all commits now input offering source [] rows = (rows, thrown (no_balances offering.id))
  insert_all commits now input offering source (b ∷ bs) rows =
      let made =
        map (row_of offering input.period_id (or_now input.snapshot_at now) now) (b ∷ bs) in
      if not commits then (rows, thrown insert_failed) else (
        rows ++ made,
        done (record {
          offering_id = offering.id;
          period_id = input.period_id;
          snapshots = made;
          from_source = source;
        }),
      )

  unfoldable pub take_snapshot :
      (commits : Bool)
      → ℕ
      → SnapshotBalancesInput
      → Offering
      → List TokenBalanceSnapshot
      → List TokenBalanceSnapshot × Outcome SnapshotBalancesResult
  take_snapshot commits now input offering rows =
      let source = resolve_effective_source input.source in
      elim (balances_of source offering input.period_id) [
        | thrown e ↦ (rows, thrown e)
        | done bs ↦ insert_all commits now input offering source bs rows
      ]

  unfoldable pub existing :
      SnapshotBalancesInput → List TokenBalanceSnapshot → List TokenBalanceSnapshot
  existing input rows =
      if input.skip_if_exists
      then find_by_offering_and_period input.offering_id input.period_id rows
      else []

  unfoldable pub snapshot_balances :
      (commits : Bool)
      → ℕ
      → SnapshotBalancesInput
      → List Offering
      → List TokenBalanceSnapshot
      → List TokenBalanceSnapshot × Outcome SnapshotBalancesResult
  snapshot_balances commits now input offerings rows =
      if is_empty input.offering_id
      then (rows, thrown offering_id_required)
      else if is_empty input.period_id
      then (rows, thrown period_id_required)
      else elim (find_by_id input.offering_id offerings) [
        | none ↦ (rows, thrown (offering_not_found input.offering_id))
        | some offering ↦ elim (existing input rows) [
          | r ∷ rs ↦ (
            rows,
            done (record {
              offering_id = input.offering_id;
              period_id = input.period_id;
              snapshots = r ∷ rs;
              from_source = resolve_effective_source input.source;
            }),
          )
          | [] ↦ take_snapshot commits now input offering rows
        ]
      ]

-- Of an investment, what the provider reads; `Number` of an amount is `number`, in units, `none` where
-- it is `NaN` or negative.
pub record HolderInvestment : Type 0 where
  pub investor_id : String
  pub status : String
  pub amount : String

abbrev pub current : Option ℕ → ℕ
current none = 0
current (some n) = n

abbrev pub amount_of : (String → Option ℕ) → HolderInvestment → ℕ
amount_of number i = if str_eq i.status "completed" then current (number i.amount) else 0

-- The loop of `createDbBalanceProviderFromInvestments` over the map: an amount of 0 is skipped.
unfoldable pub add_investments : (String → Option ℕ) → List HolderInvestment → Dict ℕ → Dict ℕ
add_investments number [] by_investor = by_investor
add_investments number (i ∷ is) by_investor =
    let amount = amount_of number i in
    add_investments number is (
      if leb amount 0
      then by_investor
      else insert i.investor_id (current (lookup i.investor_id by_investor) + amount) by_investor)

unfoldable pub balances_from_investments :
    (String → Option ℕ) → (ℕ → String) → List HolderInvestment → List HolderBalance
balances_from_investments number show is =
    map (λ e. record { holder_address_or_id = e.0; balance = show e.1 })
      (add_investments number is [])
