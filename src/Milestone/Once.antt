-- ===== src/Milestone/Once.antt =====
-- How often a milestone is validated.
use implement_offering_valid.Common.{
  ℕ, String, ◌≡◌, refl, sym, ap, ◌⊎◌, Bool, true, false, none, some, arith, Option-cases, inl, inr,
}
use implement_offering_valid.Milestone.{
  MilestoneStatus, pending, validated, Milestone, MilestoneValidationEvent, Validation,
  Repositories, Request, Reply, unauthorized, forbidden, invalid_request, or_blank, not_found,
  already_validated, passed_on, success, refusal, validation_of, record_validation,
  validate_pending, validate_assigned, handle_validate,
}

MilestoneStatus-cases : (s : MilestoneStatus) → (s ≡ pending) ⊎ (s ≡ validated)
MilestoneStatus-cases pending = inl refl
MilestoneStatus-cases validated = inr refl

-- `IsStored repositories s v`: the state has the milestone of `v`, validated.
abbrev pub IsStored : {S : Type 0} → Repositories S → S → Validation → Type 0
IsStored {S} repositories s v =
    (m : Milestone) × (repositories.get_by_vault_and_id v.vault_id v.milestone_id s ≡ some (some m))
    × (m.status ≡ validated)

-- What the code relies on: a milestone that was marked is found validated, and publishing changes no
-- milestone.
abbrev pub MarksValidated : {S : Type 0} → Repositories S → Type 0
MarksValidated {S} repositories =
    (v : Validation) (s s' : S) (m : Milestone)
    → repositories.mark_validated v s ≡ some (s', m)
    → IsStored repositories s' v

abbrev pub PublishKeeps : {S : Type 0} → Repositories S → Type 0
PublishKeeps {S} repositories =
    (id : String) (v : Validation) (s s' : S)
    → repositories.publish id v s ≡ some s'
    → repositories.get_by_vault_and_id v.vault_id v.milestone_id s'
      ≡ repositories.get_by_vault_and_id v.vault_id v.milestone_id s

abbrev pub is_success : Reply → Bool
is_success (success m e) = true
is_success unauthorized = false
is_success forbidden = false
is_success invalid_request = false
is_success not_found = false
is_success already_validated = false
is_success passed_on = false

refusal_is_none : (r : Request) (q : Reply) → refusal r ≡ some q → is_success q ≡ false
unfolding refusal
refusal_is_none r q h = ground arith

module _ {S : Type 0} (repositories : Repositories S) where
  recorded-IsStored :
      (v : Validation) (s : S) (m : Milestone) (e : MilestoneValidationEvent)
      → MarksValidated repositories
      → PublishKeeps repositories
      → (record_validation repositories v s).1 ≡ success m e
      → IsStored repositories (record_validation repositories v s).0 v
  unfolding record_validation
  recorded-IsStored v s m e marks keeps h = elim (Option-cases (repositories.create v s)) [
    | inl c ↦ absurd (ground (arith, c))
    | inr ((s1, event), c) ↦ elim (Option-cases (repositories.mark_validated v s1)) [
      | inl d ↦ absurd (ground (arith, c, d))
      | inr ((s2, n), d) ↦ elim (Option-cases (repositories.publish event.id v s2)) [
        | inl p ↦ absurd (ground (arith, c, d, p))
        | inr (s3, p) ↦
            let (stored, found, done) = marks v s1 s2 n d in
            rw (record_validation, c, d, p) (stored, rw (keeps event.id v s2 s3 p) found, done)
      ]
    ]
  ]

  pending_of_success :
      (v : Validation) (p : Milestone) (s : S) (m : Milestone) (e : MilestoneValidationEvent)
      → (validate_pending repositories v p s).1 ≡ success m e
      → validate_pending repositories v p s ≡ record_validation repositories v s
  unfolding validate_pending
  pending_of_success v p s m e h = elim (MilestoneStatus-cases p.status) [
    | inl f ↦ rw (validate_pending, f) refl
    | inr f ↦ absurd (ground (arith, f))
  ]

  assigned_of_success :
      (v : Validation) (s : S) (m : Milestone) (e : MilestoneValidationEvent)
      → (validate_assigned repositories v s).1 ≡ success m e
      → validate_assigned repositories v s ≡ record_validation repositories v s
  unfolding validate_assigned
  assigned_of_success v s m e h =
      elim (Option-cases (repositories.is_verifier_assigned_to_vault v.vault_id v.verifier_id s)) [
        | inl a ↦ absurd (ground (arith, a))
        | inr (false, a) ↦ absurd (ground (arith, a))
        | inr (true, a) ↦
            elim (Option-cases (repositories.get_by_vault_and_id v.vault_id v.milestone_id s)) [
              | inl g ↦ absurd (ground (arith, a, g))
              | inr (none, g) ↦ absurd (ground (arith, a, g))
              | inr (some p, g) ↦
                  rw (validate_assigned, a, g) (pending_of_success v p s m e (ground (arith, a, g)))
            ]
      ]

  handled_of_success :
      (now : ℕ) (r : Request) (s : S) (m : Milestone) (e : MilestoneValidationEvent)
      → (handle_validate repositories now r s).1 ≡ success m e
      → handle_validate repositories now r s
        ≡ record_validation repositories (validation_of now r) s
  unfolding handle_validate
  handled_of_success now r s m e h = elim (Option-cases (refusal r)) [
    | inl f ↦
        rw (handle_validate, f)
          (assigned_of_success (validation_of now r) s m e (ground (arith, f)))
    | inr (q, f) ↦ absurd (ground (arith, f, refusal_is_none r q f))
  ]

  pending_refused :
      (v : Validation) (s : S) (m : Milestone)
      → m.status ≡ validated
      → validate_pending repositories v m s ≡ (s, already_validated)
  unfolding validate_pending
  pending_refused v s m d = rw (validate_pending, d) refl

  stored_refused :
      (v w : Validation) (s : S)
      → IsStored repositories s v
      → w.vault_id ≡ v.vault_id
      → w.milestone_id ≡ v.milestone_id
      → ((validate_assigned repositories w s).0 ≡ s)
        × (is_success (validate_assigned repositories w s).1 ≡ false)
  unfolding validate_assigned
  stored_refused v w s (m, g, d) a b =
      let found : repositories.get_by_vault_and_id w.vault_id w.milestone_id s ≡ some (some m) =
        rw (a, b) g in
      elim (Option-cases (repositories.is_verifier_assigned_to_vault w.vault_id w.verifier_id s)) [
        | inl f ↦ rw (validate_assigned, f) (refl, refl)
        | inr (false, f) ↦ rw (validate_assigned, f) (refl, refl)
        | inr (true, f) ↦ rw (validate_assigned, f, found, pending_refused w s m d) (refl, refl)
      ]

  -- A milestone is validated once: where a marked milestone is found validated and publishing changes
  -- none, a request for the milestone of one that succeeded, after it and by whatever verifier, does
  -- not succeed and changes nothing.
  pub validated_once :
      (now later : ℕ) (r q : Request) (s : S) (m : Milestone) (e : MilestoneValidationEvent)
      → MarksValidated repositories
      → PublishKeeps repositories
      → (handle_validate repositories now r s).1 ≡ success m e
      → q.id ≡ r.id
      → q.mid ≡ r.mid
      → let s' = (handle_validate repositories now r s).0 in
        ((handle_validate repositories later q s').0 ≡ s')
        × (is_success (handle_validate repositories later q s').1 ≡ false)
  unfolding handle_validate
  validated_once now later r q s m e marks keeps h a b =
      let first = handled_of_success now r s m e h in
      let v = validation_of now r in
      let recorded : (record_validation repositories v s).1 ≡ success m e = rw (sym first) h in
      let stored = recorded-IsStored v s m e marks keeps recorded in
      let s' = (record_validation repositories v s).0 in
      let refused =
        stored_refused v (validation_of later q) s' stored (ap (λ x. or_blank x) a)
          (ap (λ x. or_blank x) b) in
      rw first (elim (Option-cases (refusal q)) [
        | inl f ↦ rw (handle_validate, f) refused
        | inr (reply, f) ↦ rw (handle_validate, f) (refl, refusal_is_none q reply f)
      ])
