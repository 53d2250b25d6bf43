-- ===== src/Snapshots/Aggregation.antt =====
-- The balances that investments add up to.
use implement_offering_valid.Common.{
  ℕ, ◌+◌, String, ◌≡◌, Option, List, [], ◌∷◌, arith, eq_iff, leb, if◌then◌else◌, str_eq, Dict,
  lookup, insert, lookup-insert, Bool-cases, inl, inr,
}
use implement_offering_valid.Snapshots.{HolderInvestment, current, amount_of, add_investments}

-- `invested number investor is`: what the investor's completed investments come to.
unfoldable pub invested : (String → Option ℕ) → String → List HolderInvestment → ℕ
invested number investor [] = 0
invested number investor (i ∷ is) =
    (if str_eq i.investor_id investor then amount_of number i else 0) + invested number investor is

-- What the loop has for an investor is what it had, and the completed investments of that investor.
added :
    (number : String → Option ℕ) (investor : String) (is : List HolderInvestment) (m : Dict ℕ)
    → current (lookup investor (add_investments number is m))
      ≡ current (lookup investor m) + invested number investor is
unfolding add_investments invested
added number investor [] m = omega arith
added number investor (i ∷ is) m =
    let amount = amount_of number i in
    let m' = insert i.investor_id (current (lookup i.investor_id m) + amount) m in
    elim (Bool-cases (leb amount 0)) [
      | inl z ↦ ground (arith, z, added number investor is m)
      | inr z ↦ ground (
        arith,
        z,
        added number investor is m',
        lookup-insert i.investor_id investor (current (lookup i.investor_id m) + amount) m,
        eq_iff i.investor_id investor,
      )
    ]

-- Each investor's balance is the sum of the amounts of the completed investments, in whatever order
-- they come; an investor without any has none.
pub balance_is_invested :
    (number : String → Option ℕ) (investor : String) (is : List HolderInvestment)
    → current (lookup investor (add_investments number is [])) ≡ invested number investor is
unfolding lookup
balance_is_invested number investor is = ground (arith, added number investor is [])
