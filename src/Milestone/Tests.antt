-- ===== src/Milestone/Tests.antt =====
-- A vault with one milestone: the state says whether it is validated, and counts the events.
use implement_offering_valid.Common.{
  ℕ, ◌+◌, String, ◌≡◌, refl, Bool, true, false, none, some, str_eq, arith,
}
use implement_offering_valid.Milestone.{
  Milestone, pending, validated, MilestoneStatus, MilestoneValidationEvent, Repositories, Request,
  forbidden, success, handle_validate, validate_assigned, validate_pending, record_validation,
  refusal,
}
use implement_offering_valid.Milestone.Once.{
  MarksValidated, PublishKeeps, is_success, validated_once,
}

pub record Vault : Type 0 where
  pub is_validated : Bool
  pub events : ℕ

abbrev status_of : Bool → MilestoneStatus
status_of true = validated
status_of false = pending

abbrev milestone_of : String → String → Bool → Milestone
milestone_of vault id b = record {
  id = id;
  vault_id = vault;
  status = status_of b;
  validated_at = none;
  validated_by = none;
}

abbrev repositories : Repositories Vault
repositories = record {
  is_verifier_assigned_to_vault = λ vault verifier s. some (str_eq verifier "vera");
  get_by_vault_and_id = λ vault id s. some (some (milestone_of vault id s.is_validated));
  create = λ v s. some (
    record s { events = s.events + 1 },
    record {
      id = "e1";
      vault_id = v.vault_id;
      milestone_id = v.milestone_id;
      verifier_id = v.verifier_id;
      created_at = v.at;
    },
  );
  mark_validated =
      λ v s. some (record s { is_validated = true }, milestone_of v.vault_id v.milestone_id true);
  publish = λ id v s. some s;
}

abbrev request : String → Request
request verifier = record {
  user_id = some verifier;
  auth_user_id = none;
  user_role = some "verifier";
  auth_role = none;
  id = some "v1";
  mid = some "m1";
}

abbrev vault : Vault
vault = record { is_validated = false; events = 0 }

other_verifier_is_refused : (handle_validate repositories 5 (request "mallory") vault).1 ≡ forbidden
unfolding handle_validate validate_assigned refusal
other_verifier_is_refused = refl

abbrev event : MilestoneValidationEvent
event = record {
  id = "e1";
  vault_id = "v1";
  milestone_id = "m1";
  verifier_id = "vera";
  created_at = 5;
}

succeeds :
    (handle_validate repositories 5 (request "vera") vault).1
    ≡ success (milestone_of "v1" "m1" true) event
unfolding handle_validate validate_assigned validate_pending record_validation refusal
succeeds = refl

marks : MarksValidated repositories
marks v s s' m h =
    let done : s'.is_validated ≡ true = ground arith in
    (milestone_of v.vault_id v.milestone_id true, rw done refl, refl)

keeps : PublishKeeps repositories
keeps id v s s' h = let same : s'.is_validated ≡ s.is_validated = ground arith in rw same refl

validated_once_example :
    let vault' = (handle_validate repositories 5 (request "vera") vault).0 in
    ((handle_validate repositories 6 (request "vera") vault').0 ≡ vault')
    × (is_success (handle_validate repositories 6 (request "vera") vault').1 ≡ false)
validated_once_example =
    validated_once repositories 5 6 (request "vera") (request "vera") vault
      (milestone_of "v1" "m1" true) event marks keeps succeeds refl refl
