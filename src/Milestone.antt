-- ===== src/Milestone.antt =====
-- Validation of milestones (src/vaults/milestoneValidationRoute.ts). The repositories and the publisher
-- are the interfaces of the route, which src/index.ts fills with maps in memory and with the console:
-- they are the operations of a record here, over a state `S`, each of which may throw, and the laws that a
-- theorem needs of them are its hypotheses.
pub mod Once
mod Tests
use implement_offering_valid.Common.{
  ℕ, String, Bool, true, false, ◌||◌, not, Option, none, some, if◌then◌else◌, str_eq, is_missing,
}

pub data MilestoneStatus : Type 0 where
  pending validated : MilestoneStatus

pub record Milestone : Type 0 where
  pub id : String
  pub vault_id : String
  pub status : MilestoneStatus
  pub validated_at : Option ℕ
  pub validated_by : Option String

pub record MilestoneValidationEvent : Type 0 where
  pub id : String
  pub vault_id : String
  pub milestone_id : String
  pub verifier_id : String
  pub created_at : ℕ

-- The input of `create` and of `markValidated`.
pub record Validation : Type 0 where
  pub vault_id : String
  pub milestone_id : String
  pub verifier_id : String
  pub at : ℕ

-- `none` where an operation throws; a milestone that is not there is `some none`.
pub record Repositories (S : Type 0) : Type 0 where
  pub is_verifier_assigned_to_vault : (vault_id verifier_id : String) → S → Option Bool
  pub get_by_vault_and_id : (vault_id milestone_id : String) → S → Option (Option Milestone)
  pub create : Validation → S → Option (S × MilestoneValidationEvent)
  pub mark_validated : Validation → S → Option (S × Milestone)
  pub publish : (event_id : String) → Validation → S → Option S

pub record Request : Type 0 where
  pub user_id : Option String
  pub auth_user_id : Option String
  pub user_role : Option String
  pub auth_role : Option String
  pub id : Option String
  pub mid : Option String

-- The answer: a status with its data, or `next(error)`.
pub data Reply : Type 0 where
  unauthorized forbidden invalid_request not_found already_validated passed_on : Reply
  success : Milestone → MilestoneValidationEvent → Reply

abbrev or_else : Option String → Option String → Option String
or_else none b = b
or_else (some a) b = some a

abbrev or_blank : Option String → String
or_blank none = ""
or_blank (some s) = s

abbrev pub get_user_id : Request → String
get_user_id r = or_blank (or_else r.user_id r.auth_user_id)

abbrev pub get_user_role : Request → String
get_user_role r = or_blank (or_else r.user_role r.auth_role)

-- What the guards before the repositories say; `!verifierId` holds of a blank id too.
unfoldable pub refusal : Request → Option Reply
refusal r =
    if str_eq (get_user_id r) "" || str_eq (get_user_role r) ""
    then some unauthorized
    else if not (str_eq (get_user_role r) "verifier")
    then some forbidden
    else if is_missing r.id || is_missing r.mid
    then some invalid_request
    else none

abbrev pub validation_of : ℕ → Request → Validation
validation_of now r = record {
  vault_id = or_blank r.id;
  milestone_id = or_blank r.mid;
  verifier_id = get_user_id r;
  at = now;
}

module _ {S : Type 0} (repositories : Repositories S) where
  -- The three writes, one after the other.
  unfoldable pub record_validation : Validation → S → S × Reply
  record_validation v s = elim (repositories.create v s) [
    | none ↦ (s, passed_on)
    | some (s1, event) ↦ elim (repositories.mark_validated v s1) [
      | none ↦ (s1, passed_on)
      | some (s2, milestone) ↦ elim (repositories.publish event.id v s2) [
        | none ↦ (s2, passed_on)
        | some s3 ↦ (s3, success milestone event)
      ]
    ]
  ]

  unfoldable pub validate_pending : Validation → Milestone → S → S × Reply
  validate_pending v m s = elim (m.status) [
    | validated ↦ (s, already_validated)
    | pending ↦ record_validation v s
  ]

  -- The part after the guards on the request.
  unfoldable pub validate_assigned : Validation → S → S × Reply
  validate_assigned v s =
      elim (repositories.is_verifier_assigned_to_vault v.vault_id v.verifier_id s) [
        | none ↦ (s, passed_on)
        | some assigned ↦
            if not assigned
            then (s, forbidden)
            else elim (repositories.get_by_vault_and_id v.vault_id v.milestone_id s) [
              | none ↦ (s, passed_on)
              | some none ↦ (s, not_found)
              | some (some m) ↦ validate_pending v m s
            ]
      ]

  unfoldable pub handle_validate : ℕ → Request → S → S × Reply
  handle_validate now r s = elim (refusal r) [
    | some reply ↦ (s, reply)
    | none ↦ validate_assigned (validation_of now r) s
  ]
