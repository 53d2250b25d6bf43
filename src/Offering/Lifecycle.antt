-- ===== src/Offering/Lifecycle.antt =====
-- The life cycle as a relation that the guard decides, and what a history of guarded steps visits.
use mathlib.Core.Path.{subst, subst₂}
use implement_offering_valid.Common.{
  String, ◌≡◌, refl, sym, ◌↔◌, ◌⊎◌, inl, inr, ◌≢◌, Bool, true, none, List, [], ◌∷◌, arith, str_eq,
  eq_iff, if◌then◌else◌, Bool-cases,
}
use implement_offering_valid.Offering.{
  allowed_transitions, includes, can_transition, enforce_transition,
}

-- The arrows of the life cycle.
pub data Arrow (from : String) (to : String) : Type 0 where
  submit : from ≡ "draft" → to ≡ "pending_review" → Arrow from to
  approve : from ≡ "pending_review" → to ≡ "approved" → Arrow from to
  reject : from ≡ "pending_review" → to ≡ "rejected" → Arrow from to
  publish : from ≡ "approved" → to ≡ "published" → Arrow from to
  redraft : from ≡ "rejected" → to ≡ "draft" → Arrow from to
  archive : from ≡ "published" → to ≡ "archived" → Arrow from to

Arrow-of_can : (from to : String) → can_transition from to ≡ true → Arrow from to
unfolding can_transition allowed_transitions includes
Arrow-of_can from to h = elim (Bool-cases (str_eq from "draft")) [
  | inl e ↦ submit ((eq_iff from "draft").0 e) (ground (arith, eq_iff "pending_review" to))
  | inr e ↦ elim (Bool-cases (str_eq from "pending_review")) [
    | inl p ↦ elim (Bool-cases (str_eq "approved" to)) [
      | inl a ↦ approve ((eq_iff from "pending_review").0 p) (ground (arith, eq_iff "approved" to))
      | inr a ↦ reject ((eq_iff from "pending_review").0 p) (ground (arith, eq_iff "rejected" to))
    ]
    | inr p ↦ elim (Bool-cases (str_eq from "approved")) [
      | inl a ↦ publish ((eq_iff from "approved").0 a) (ground (arith, eq_iff "published" to))
      | inr a ↦ elim (Bool-cases (str_eq from "rejected")) [
        | inl r ↦ redraft ((eq_iff from "rejected").0 r) (ground (arith, eq_iff "draft" to))
        | inr r ↦
            archive (ground (arith, eq_iff from "published")) (ground (arith, eq_iff "archived" to))
      ]
    ]
  ]
]

enforce-of_Arrow : (from to : String) → Arrow from to → enforce_transition from to ≡ none
unfolding enforce_transition can_transition allowed_transitions includes
enforce-of_Arrow from to (submit p q) =
    subst₂ (λ f t. enforce_transition f t ≡ none) (sym p) (sym q) refl
enforce-of_Arrow from to (approve p q) =
    subst₂ (λ f t. enforce_transition f t ≡ none) (sym p) (sym q) refl
enforce-of_Arrow from to (reject p q) =
    subst₂ (λ f t. enforce_transition f t ≡ none) (sym p) (sym q) refl
enforce-of_Arrow from to (publish p q) =
    subst₂ (λ f t. enforce_transition f t ≡ none) (sym p) (sym q) refl
enforce-of_Arrow from to (redraft p q) =
    subst₂ (λ f t. enforce_transition f t ≡ none) (sym p) (sym q) refl
enforce-of_Arrow from to (archive p q) =
    subst₂ (λ f t. enforce_transition f t ≡ none) (sym p) (sym q) refl

can_of_enforce :
    (from to : String) → enforce_transition from to ≡ none → can_transition from to ≡ true
unfolding enforce_transition
can_of_enforce from to h = ground arith

-- For all strings, known statuses or not, `enforceTransition` returns without an error exactly for
-- the six arrows of the life cycle.
pub enforce_transition_iff :
    (from to : String) → (enforce_transition from to ≡ none) ↔ Arrow from to
enforce_transition_iff from to =
    (λ h. Arrow-of_can from to (can_of_enforce from to h), enforce-of_Arrow from to)

-- A history of guarded steps from a status, with the statuses that it has come through, the latest
-- first.
pub data History (start : String) : List String → String → Type 0 where
  begin : History start (start ∷ []) start
  step :
      {visited : List String} {from : String} (to : String)
      → History start visited from
      → enforce_transition from to ≡ none
      → History start (to ∷ visited) to

-- A status that only an approved offering can have.
abbrev needs_approval : String → Bool
needs_approval st =
    if str_eq st "approved"
    then true
    else if str_eq st "published"
    then true
    else str_eq st "archived"

includes-cons :
    (x y : String) (ys : List String) → includes ys x ≡ true → includes (y ∷ ys) x ≡ true
unfolding includes
includes-cons x y ys h = ground arith

Arrow-needs_approval :
    (from to : String) (visited : List String)
    → Arrow from to
    → (needs_approval from ≡ true → includes visited "approved" ≡ true)
    → needs_approval to ≡ true
    → includes (to ∷ visited) "approved" ≡ true
unfolding includes
Arrow-needs_approval from to visited (submit p q) h n =
    absurd (cc (subst (λ t. needs_approval t ≡ true) q n))
Arrow-needs_approval from to visited (approve p q) h n =
    subst (λ t. includes (t ∷ visited) "approved" ≡ true) (sym q) refl
Arrow-needs_approval from to visited (reject p q) h n =
    absurd (cc (subst (λ t. needs_approval t ≡ true) q n))
Arrow-needs_approval from to visited (publish p q) h n =
    includes-cons "approved" to visited (h (subst (λ f. needs_approval f ≡ true) (sym p) refl))
Arrow-needs_approval from to visited (redraft p q) h n =
    absurd (cc (subst (λ t. needs_approval t ≡ true) q n))
Arrow-needs_approval from to visited (archive p q) h n =
    includes-cons "approved" to visited (h (subst (λ f. needs_approval f ≡ true) (sym p) refl))

History-approval :
    {visited : List String} {st : String}
    → History "draft" visited st
    → needs_approval st ≡ true
    → includes visited "approved" ≡ true
History-approval begin n = absurd (cc n)
History-approval (step {visited} {from} to h e) n =
    Arrow-needs_approval from to visited (Arrow-of_can from to (can_of_enforce from to e))
      (History-approval h) n

-- Approval cannot be bypassed: whatever guarded transitions an offering makes from a draft, if it is
-- published or archived in the end then it has been approved on the way.
pub published_was_approved :
    {visited : List String} {st : String}
    → History "draft" visited st
    → (st ≡ "published") ⊎ (st ≡ "archived")
    → includes visited "approved" ≡ true
published_was_approved h (inl e) =
    History-approval h (subst (λ s. needs_approval s ≡ true) (sym e) refl)
published_was_approved h (inr e) =
    History-approval h (subst (λ s. needs_approval s ≡ true) (sym e) refl)

-- An archived offering is final: no target status, known or not, is accepted from it.
pub archived_is_final : (to : String) → enforce_transition "archived" to ≢ none
unfolding enforce_transition can_transition allowed_transitions includes
archived_is_final to h = ground arith
