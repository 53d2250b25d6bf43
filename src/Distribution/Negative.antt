-- ===== src/Distribution/Negative.antt =====
-- The adjustment of the largest share (src/services/distributionEngine.ts) against its size.
use native.Mathlib.Nat.{le-div_iff_mul-le, div-lt_iff_lt-mul, mul-le-mul_right}
use implement_offering_valid.Common.{
  ℕ, suc, ◌+◌, ◌-◌, ◌*◌, ◌≤◌, ◌<◌, ◌≡◌, refl, ◌∙◌, ap, false, List, [], ◌∷◌, arith, length, All, ℤ,
  pos, ◌+ℤ◌, ◌-ℤ◌, int_laws, ltb_ℤ,
}
use implement_offering_valid.Distribution.{
  BalanceRow, Payout, RawShare, amounts_from, scale, round_div, raw_shares, round_shares, max_index,
  largest, add_at, is_zero_ℤ, compute_payouts,
}
use implement_offering_valid.Distribution.Rounding.{amounts_from-acc}

-- A share between half a cent and less than one and a half is rounded to one cent.
round_to_one : (n d : ℕ) → d ≤ 2 * n → n < d → round_div (pos n) d ≡ pos 1
unfolding round_div
round_to_one n d lo hi = ground (
  arith,
  (le-div_iff_mul-le {k = 2 * d} {x = 1} {y = 2 * n + d} (omega arith)).1 (omega arith),
  (div-lt_iff_lt-mul {k = 2 * d} {x = 2 * n + d} {y = 2} (omega arith)).1 (omega arith),
)

-- The amount of the first payout; nothing where there is none.
pub first_amount : List Payout → ℤ
first_amount [] = pos 0
first_amount (p ∷ ps) = p.amount

abbrev pub HoldEqually : ℕ → List BalanceRow → Type 0
HoldEqually c bs = All (λ b. b.balance ≡ pos c) bs

scale_pos : (r c : ℕ) (z : ℤ) → z ≡ pos c → scale r z ≡ pos (r * c)
unfolding scale
scale_pos r c z e = rw e (ground arith)

raws_equal :
    (c revenue : ℕ) (bs : List BalanceRow)
    → HoldEqually c bs
    → All (λ r. r.raw ≡ pos (revenue * c)) (raw_shares revenue bs)
unfolding raw_shares
raws_equal c revenue [] h = tt
raws_equal c revenue (b ∷ bs) h = (scale_pos revenue c b.balance h.0, raws_equal c revenue bs h.1)

rounded_to_one :
    (n d : ℕ) (rs : List RawShare)
    → d ≤ 2 * n
    → n < d
    → All (λ r. r.raw ≡ pos n) rs
    → amounts_from (pos 0) (round_shares d rs) ≡ pos (length rs)
unfolding amounts_from round_shares
rounded_to_one n d [] lo hi h = refl
rounded_to_one n d (r ∷ rs) lo hi h =
    rw (h.0, round_to_one n d lo hi)
      (rw (amounts_from-acc (pos 0 +ℤ pos 1) (round_shares d rs), rounded_to_one n d rs lo hi h.1)
        (omega int_laws))

not_less : (n : ℕ) → ltb_ℤ (pos n) (pos n) ≡ false
not_less n = ground arith

max_index_equal :
    (i m n : ℕ) (rs : List RawShare) → All (λ r. r.raw ≡ pos n) rs → max_index i m (pos n) rs ≡ m
unfolding max_index
max_index_equal i m n [] h = refl
max_index_equal i m n (r ∷ rs) h = rw (h.0, not_less n) (max_index_equal (i + 1) m n rs h.1)

length-raw_shares :
    (revenue : ℕ) (bs : List BalanceRow) → length (raw_shares revenue bs) ≡ length bs
unfolding raw_shares
length-raw_shares revenue [] = refl
length-raw_shares revenue (b ∷ bs) = ap suc (length-raw_shares revenue bs)

first-add_at :
    (diff : ℤ) (p : Payout) (ps : List Payout)
    → first_amount (add_at 0 diff (p ∷ ps)) ≡ p.amount +ℤ diff
unfolding add_at first_amount
first-add_at diff p ps = refl

largest_equal :
    (n : ℕ) (r : RawShare) (rs : List RawShare)
    → All (λ r. r.raw ≡ pos n) (r ∷ rs)
    → largest (r ∷ rs) ≡ 0
unfolding largest
largest_equal n r rs h = rw (h.0) (max_index_equal 1 0 n rs h.1)

share_bounds :
    (c revenue k : ℕ)
    → 0 < c
    → revenue + 1 < k
    → k ≤ 2 * revenue
    → (k * c ≤ 2 * (revenue * c)) × (revenue * c < k * c)
share_bounds c revenue k held few many =
    (omega (arith, mul-le-mul_right c many), omega (arith, mul-le-mul_right c few))

not_zero_diff : (r k : ℕ) → r < k → is_zero_ℤ (pos r -ℤ pos k) ≡ false
unfolding is_zero_ℤ ◌-ℤ◌
not_zero_diff r k h = ground arith

take_back : (r k : ℕ) → r + 1 < k → pos 1 +ℤ (pos r -ℤ pos k) ≡ pos 0 -ℤ pos (k - 1 - r)
take_back r k h = omega int_laws

-- Where `n` holders hold the same positive balance, and the revenue in cents is below `n - 1` but more
-- than half of `n`, every share is rounded up to one cent; what that is too much is taken from the first
-- holder, whose payout is the negative amount of `n - 1` minus the revenue cents. The holders are at most
-- a million, and their total is at most 2^53: a share is then further from a half of a cent than what
-- doubles are off by.
pub first_amount_negative :
    (c revenue : ℕ) (b : BalanceRow) (bs : List BalanceRow)
    → 0 < c
    → HoldEqually c (b ∷ bs)
    → revenue + 1 < length (b ∷ bs)
    → length (b ∷ bs) < 2 * revenue
    → length (b ∷ bs) ≤ 1_000_000
    → length (b ∷ bs) * c ≤ 9_007_199_254_740_992
    → first_amount (compute_payouts (length (b ∷ bs) * c) revenue (b ∷ bs))
      ≡ pos 0 -ℤ pos (length (b ∷ bs) - 1 - revenue)
unfolding compute_payouts raw_shares round_shares
first_amount_negative c revenue b bs held h few many short exact =
    let k = length (b ∷ bs) in
    let raws = raw_shares revenue (b ∷ bs) in
    let equal = raws_equal c revenue (b ∷ bs) h in
    let (lo, hi) = share_bounds c revenue k held few (omega (arith, many)) in
    let sum : amounts_from (pos 0) (round_shares (k * c) raws) ≡ pos k =
      rounded_to_one (revenue * c) (k * c) raws lo hi equal
      ∙ ap pos (length-raw_shares revenue (b ∷ bs)) in
    let raw : RawShare = record { investor_id = b.investor_id; raw = scale revenue b.balance } in
    let first : Payout = record {
      investor_id = b.investor_id;
      amount = round_div raw.raw (k * c);
    } in
    let one : first.amount ≡ pos 1 =
      ap (λ z. round_div z (k * c)) equal.0 ∙ round_to_one (revenue * c) (k * c) lo hi in
    rw
      (
        sum,
        not_zero_diff revenue k (omega arith),
        largest_equal (revenue * c) raw (raw_shares revenue bs) equal,
      )
      (first-add_at (pos revenue -ℤ pos k) first (round_shares (k * c) (raw_shares revenue bs))
        ∙ ap (λ z. z +ℤ (pos revenue -ℤ pos k)) one
        ∙ take_back revenue k few)
