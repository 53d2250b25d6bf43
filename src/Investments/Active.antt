-- ===== src/Investments/Active.antt =====
-- The offerings that take investments.
use implement_offering_valid.Common.{
  ℕ, String, ◌≡◌, true, Option, some, List, [], ◌∷◌, ◌++◌, ℤ, Option-cases, Bool-cases, inl, inr,
  arith,
}
use implement_offering_valid.Catalog.{Offering, find_by_id}
use implement_offering_valid.Investments.{
  Investment, CreateInvestmentRequest, created, is_active, create, create_investment,
}

-- An investment is made only in an offering that is active or open, and is the one row that is added,
-- as pending.
pub created_in_active :
    (parse_float : String → Option ℤ) (fresh : String) (now : ℕ) (r : CreateInvestmentRequest)
    (offerings : List Offering) (rows : List Investment) (i : Investment)
    → (create_investment parse_float fresh now r offerings rows).1 ≡ created i
    → ((o : Offering) × (find_by_id r.offering_id offerings ≡ some o) × (is_active o.status ≡ true))
      × (i.status ≡ "pending")
      × ((create_investment parse_float fresh now r offerings rows).0 ≡ rows ++ i ∷ [])
unfolding create_investment create
created_in_active parse_float fresh now r offerings rows i h =
    elim (Option-cases (find_by_id r.offering_id offerings)) [
      | inl e ↦ absurd (ground (arith, e))
      | inr (o, e) ↦ elim (Bool-cases (is_active o.status)) [
        | inr a ↦ absurd (ground (arith, e, a))
        | inl a ↦ ((o, e, a), ground (arith, e, a), ground (arith, e, a))
      ]
    ]
