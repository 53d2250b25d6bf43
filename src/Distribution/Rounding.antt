-- ===== src/Distribution/Rounding.antt =====
-- The shares in cents of src/services/distributionEngine.ts: their rounding and their sum.
use native.Mathlib.Nat.{div-add-mod, mod-lt}
use implement_offering_valid.Common.{
  ℕ, zero, suc, ◌+◌, ◌-◌, ◌*◌, ◌/◌, ◌≤◌, ◌<◌, ◌≡◌, refl, ◌∙◌, ap, String, true, List, [], ◌∷◌,
  arith, Bool-cases, inl, inr, length, ℤ, pos, negsuc, pos_part, neg_part, ◌+ℤ◌, ◌-ℤ◌, int_laws,
}
use implement_offering_valid.Distribution.{
  BalanceRow, Payout, RawShare, amounts_from, scale, round_div, raw_shares, round_shares, max_index,
  largest, add_at, is_zero_ℤ, compute_payouts,
}

pub div_bounds : (a d : ℕ) → 0 < d → (d * (a / d) ≤ a) × (a < d * (a / d) + d)
div_bounds a d h = omega (arith, div-add-mod a d, mod-lt a h)

pub amounts_from-acc :
    (acc : ℤ) (ps : List Payout) → amounts_from acc ps ≡ acc +ℤ amounts_from (pos 0) ps
unfolding amounts_from
amounts_from-acc acc [] = omega int_laws
amounts_from-acc acc (p ∷ ps) =
    rw (amounts_from-acc (acc +ℤ p.amount) ps, amounts_from-acc (pos 0 +ℤ p.amount) ps)
      (omega int_laws)

amounts-add_at :
    (i : ℕ) (diff acc : ℤ) (ps : List Payout)
    → i < length ps
    → amounts_from acc (add_at i diff ps) ≡ amounts_from acc ps +ℤ diff
unfolding amounts_from add_at
amounts-add_at i diff acc [] h = absurd (omega arith)
amounts-add_at zero diff acc (p ∷ ps) h =
    rw (amounts_from-acc (acc +ℤ (p.amount +ℤ diff)) ps, amounts_from-acc (acc +ℤ p.amount) ps)
      (omega int_laws)
amounts-add_at (suc i) diff acc (p ∷ ps) h =
    amounts-add_at i diff (acc +ℤ p.amount) ps (omega arith)

max_index-lt :
    (i m : ℕ) (best : ℤ) (rs : List RawShare) → m < i → max_index i m best rs < i + length rs
unfolding max_index
max_index-lt i m best [] h = omega arith
max_index-lt i m best (r ∷ rs) h =
    ground (arith, max_index-lt (i + 1) i r.raw rs, max_index-lt (i + 1) m best rs)

length-round_shares :
    (total revenue : ℕ) (bs : List BalanceRow)
    → length (round_shares total (raw_shares revenue bs)) ≡ length (raw_shares revenue bs)
unfolding round_shares raw_shares
length-round_shares total revenue [] = refl
length-round_shares total revenue (b ∷ bs) = ap suc (length-round_shares total revenue bs)

largest-lt :
    (total revenue : ℕ) (b : BalanceRow) (bs : List BalanceRow)
    → largest (raw_shares revenue (b ∷ bs))
      < length (round_shares total (raw_shares revenue (b ∷ bs)))
unfolding raw_shares largest
largest-lt total revenue b bs = omega (
  arith,
  length-round_shares total revenue (b ∷ bs),
  max_index-lt 1 0 (scale revenue b.balance) (raw_shares revenue bs),
)

sum_sub_cancel : (a b : ℤ) → a +ℤ (b -ℤ a) ≡ b
sum_sub_cancel a b = omega int_laws

zero_ℤ : (z : ℤ) → is_zero_ℤ z ≡ true → pos_part z + neg_part z ≡ 0
unfolding is_zero_ℤ
zero_ℤ z h = ground arith

-- However the balances are spread and rounded, the payouts computed for at least one investor add up
-- to the revenue, to the cent.
pub compute_payouts_total :
    (total revenue : ℕ) (b : BalanceRow) (bs : List BalanceRow)
    → amounts_from (pos 0) (compute_payouts total revenue (b ∷ bs)) ≡ pos revenue
unfolding compute_payouts
compute_payouts_total total revenue b bs =
    let rounded = round_shares total (raw_shares revenue (b ∷ bs)) in
    let sum = amounts_from (pos 0) rounded in
    elim (Bool-cases (is_zero_ℤ (pos revenue -ℤ sum))) [
      | inl z ↦ rw z (omega (int_laws, zero_ℤ (pos revenue -ℤ sum) z))
      | inr z ↦ rw z (
          amounts-add_at (largest (raw_shares revenue (b ∷ bs))) (pos revenue -ℤ sum) (pos 0)
            rounded (largest-lt total revenue b bs)
          ∙ sum_sub_cancel sum (pos revenue))
    ]

-- The investors that are paid, in order.
unfoldable pub investors : List Payout → List String
investors [] = []
investors (p ∷ ps) = p.investor_id ∷ investors ps

pub holders : List BalanceRow → List String
holders [] = []
holders (b ∷ bs) = b.investor_id ∷ holders bs

investors-add_at :
    (i : ℕ) (diff : ℤ) (ps : List Payout) → investors (add_at i diff ps) ≡ investors ps
unfolding investors add_at
investors-add_at i diff [] = refl
investors-add_at zero diff (p ∷ ps) = refl
investors-add_at (suc i) diff (p ∷ ps) = rw (investors-add_at i diff ps)

investors-round_shares :
    (total revenue : ℕ) (bs : List BalanceRow)
    → investors (round_shares total (raw_shares revenue bs)) ≡ holders bs
unfolding investors holders round_shares raw_shares
investors-round_shares total revenue [] = refl
investors-round_shares total revenue (b ∷ bs) = rw (investors-round_shares total revenue bs)

-- Every holder gets one payout, in the order of the balances.
pub investors-compute_payouts :
    (total revenue : ℕ) (bs : List BalanceRow)
    → investors (compute_payouts total revenue bs) ≡ holders bs
unfolding compute_payouts
investors-compute_payouts total revenue bs =
    let raws = raw_shares revenue bs in
    let rounded = round_shares total raws in
    let diff = pos revenue -ℤ amounts_from (pos 0) rounded in
    elim (Bool-cases (is_zero_ℤ diff)) [
      | inl z ↦ rw z (investors-round_shares total revenue bs)
      | inr z ↦
          rw (z, investors-add_at (largest raws) diff rounded)
            (investors-round_shares total revenue bs)
    ]

-- Twice the distance of a rounded share from the exact quotient is at most the denominator: the
-- rounding is to the nearest cent.
pub round_div_nearest :
    (z : ℤ) (d : ℕ)
    → 0 < d
    → let q = round_div z d in
      (2 * pos_part z + d * (2 * neg_part q) ≤ 2 * neg_part z + d * (2 * pos_part q) + d)
      × (2 * neg_part z + d * (2 * pos_part q) ≤ 2 * pos_part z + d * (2 * neg_part q) + d)
unfolding round_div
round_div_nearest (pos n) d h = ground (arith, div_bounds (2 * n + d) (2 * d) (omega arith))
round_div_nearest (negsuc n) d h = ground (
  arith,
  div_bounds (d - 2 * suc n) (2 * d) (omega arith),
  div_bounds (2 * suc n - d + (2 * d - 1)) (2 * d) (omega arith),
)
