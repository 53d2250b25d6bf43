-- ===== src/Offering.antt =====
-- The offering life cycle (src/lib/offeringStatusGuard.ts): `canTransition`, `enforceTransition`.
-- A status is the string that the caller passes, as in the compiled JavaScript.
mod Tests
pub mod Lifecycle
use implement_offering_valid.Common.{
  String, Bool, true, false, Option, none, some, List, [], ◌∷◌, str_eq, if◌then◌else◌, is_empty,
}

-- `ALLOWED_TRANSITIONS[from]`; `none` is `undefined`, for a string that is no status.
unfoldable pub allowed_transitions : String → Option (List String)
allowed_transitions from =
    if str_eq from "draft"
    then some ("pending_review" ∷ [])
    else if str_eq from "pending_review"
    then some ("approved" ∷ "rejected" ∷ [])
    else if str_eq from "approved"
    then some ("published" ∷ [])
    else if str_eq from "rejected"
    then some ("draft" ∷ [])
    else if str_eq from "published"
    then some ("archived" ∷ [])
    else if str_eq from "archived"
    then some []
    else none

-- `list.includes(x)`
unfoldable pub includes : List String → String → Bool
includes [] x = false
includes (y ∷ ys) x = if str_eq y x then true else includes ys x

unfoldable pub can_transition : String → String → Bool
can_transition from to = elim (allowed_transitions from) [
  | none ↦ false
  | some targets ↦ includes targets to
]

-- The errors that `enforceTransition` throws, in the order of its tests.
pub data TransitionError : Type 0 where
  invalid_input unknown_current unknown_target : TransitionError
  invalid_transition : String → String → TransitionError

-- `none` when the call returns. For a name that every object inherits, as `constructor`, the source fails
-- with another error than the one given here.
unfoldable pub enforce_transition : String → String → Option TransitionError
enforce_transition from to =
    if is_empty from
    then some invalid_input
    else if is_empty to
    then some invalid_input
    else elim (allowed_transitions from) [
      | none ↦ some unknown_current
      | some _ ↦ elim (allowed_transitions to) [
        | none ↦ some unknown_target
        | some _ ↦ if can_transition from to then none else some (invalid_transition from to)
      ]
    ]
