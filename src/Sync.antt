-- ===== src/Sync.antt =====
-- Synchronisation of offerings with the chain (src/services/offeringSyncService.ts). The contract is
-- the parameter `chain`: the state of an address, or the message of what the client throws; `failure`
-- is the message where the UPDATE throws.
pub mod Convergence
mod Tests
use implement_offering_valid.Common.{
  ℕ, String, Bool, true, false, ◌&&◌, ◌||◌, not, Option, none, some, List, [], ◌∷◌, if◌then◌else◌,
  str_eq, is_missing,
}
use implement_offering_valid.Catalog.{Offering, find_by_id, list_all, update_state, same}

pub record OnChainOfferingState : Type 0 where
  pub status : String
  pub total_raised : String

pub data ChainAnswer : Type 0 where
  state_of : OnChainOfferingState → ChainAnswer
  throws : String → ChainAnswer

-- The `error` of a result.
pub data SyncError : Type 0 where
  not_found no_contract : String → SyncError
  message : String → SyncError

pub record SyncResult : Type 0 where
  pub offering_id : String
  pub contract_address : String
  pub success : Bool
  pub updated : Bool
  pub error : Option SyncError

abbrev or_blank : Option String → String
or_blank none = ""
or_blank (some s) = s

abbrev failed : String → String → SyncError → SyncResult
failed id address e = record {
  offering_id = id;
  contract_address = address;
  success = false;
  updated = false;
  error = some e;
}

abbrev succeeded : String → String → Bool → SyncResult
succeeded id address updated = record {
  offering_id = id;
  contract_address = address;
  success = true;
  updated = updated;
  error = none;
}

abbrev pub has_changed : OnChainOfferingState → Offering → Bool
has_changed on_chain offering =
    not (same offering.status on_chain.status)
    || not (same offering.total_raised on_chain.total_raised)

module _ (chain : String → ChainAnswer) (failure : Option String) where
  unfoldable pub sync_from_chain : ℕ → Offering → List Offering → List Offering × SyncResult
  sync_from_chain now offering rows =
      if is_missing offering.contract_address
      then (rows, failed offering.id "" (no_contract offering.id))
      else let address = or_blank offering.contract_address in
        elim (chain address) [
          | throws m ↦ (rows, failed offering.id address (message m))
          | state_of on_chain ↦
              if not (has_changed on_chain offering)
              then (rows, succeeded offering.id address false)
              else elim (failure) [
                | some m ↦ (rows, failed offering.id address (message m))
                | none ↦ (
                  (update_state now offering.id
                      (record {
                        status = some on_chain.status;
                        total_raised = some on_chain.total_raised;
                      })
                      rows).0,
                  succeeded offering.id address true,
                )
              ]
        ]

  unfoldable pub sync_offering : ℕ → String → List Offering → List Offering × SyncResult
  sync_offering now id rows = elim (find_by_id id rows) [
    | none ↦ (rows, failed id "" (not_found id))
    | some offering ↦ sync_from_chain now offering rows
  ]

  -- The offerings of `syncAll`, one after the other: each touches its own row.
  unfoldable pub sync_each : ℕ → List Offering → List Offering → List Offering × List SyncResult
  sync_each now [] rows = (rows, [])
  sync_each now (o ∷ os) rows =
      let (rows', result) = sync_from_chain now o rows in
      let (rows'', results) = sync_each now os rows' in (rows'', result ∷ results)

  unfoldable pub sync_all : ℕ → List Offering → List Offering × List SyncResult
  sync_all now rows = sync_each now (list_all rows) rows
