-- ===== src/Offering/Tests.antt =====
-- The guard at concrete statuses, and the theorems at a concrete history.
use implement_offering_valid.Common.{◌≡◌, refl, true, none, some, [], ◌∷◌, inl}
use implement_offering_valid.Offering.{
  includes, can_transition, allowed_transitions, enforce_transition, invalid_input, unknown_current,
  unknown_target, invalid_transition,
}
use implement_offering_valid.Offering.Lifecycle.{History, begin, step, published_was_approved}

guard_tests :
    (enforce_transition "approved" "published" ≡ none)
    × (enforce_transition "draft" "published" ≡ some (invalid_transition "draft" "published"))
    × (enforce_transition "" "draft" ≡ some invalid_input)
    × (enforce_transition "lost" "draft" ≡ some unknown_current)
    × (enforce_transition "draft" "lost" ≡ some unknown_target)
unfolding enforce_transition can_transition allowed_transitions includes
guard_tests = (refl, refl, refl, refl, refl)

published-History :
    History "draft" ("published" ∷ "approved" ∷ "pending_review" ∷ "draft" ∷ []) "published"
unfolding enforce_transition can_transition allowed_transitions includes
published-History = step "published" (step "approved" (step "pending_review" begin refl) refl) refl

published_was_approved_example :
    includes ("published" ∷ "approved" ∷ "pending_review" ∷ "draft" ∷ []) "approved" ≡ true
published_was_approved_example = published_was_approved published-History (inl refl)
