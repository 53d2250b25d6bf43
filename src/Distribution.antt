-- ===== src/Distribution.antt =====
-- The distribution engine (src/services/distributionEngine.ts): `distribute` and `withRetry`.
-- Amounts of money are whole cents, and the arithmetic on them is exact: the rounding error of
-- doubles is left out, the source's own `Math.round` to cents is kept. The repository and the
-- balance source are effects on a state `W` of the outside world that may fail.
pub mod Retry
pub mod Rounding
pub mod Negative
pub mod Conservation
pub mod Stored
mod Tests
use implement_offering_valid.Common.{
  ℕ, zero, suc, ◌+◌, ◌-◌, ◌*◌, ◌/◌, ◌^◌, String, Bool, true, false, Option, none, some, List, [],
  ◌∷◌, ◌++◌, ltb, leb, ◌==◌, ◌||◌, ◌&&◌, if◌then◌else◌, is_empty, ℤ, pos, negsuc, sub_ℕ, pos_part,
  neg_part, ◌+ℤ◌, ◌-ℤ◌, leb_ℤ, ltb_ℤ, map,
}

-- A promise that settles; a rejection carries the thrown value, which may be undefined.
pub data Result {ℓ} (A : Type ℓ) : Type ℓ where
  ok : A → Result A
  err : Option String → Result A

-- An operation of the outside world.
abbrev pub Effect : Type 0 → Type 0 → Type 0
Effect W A = W → Result A × W

pub record RetryOptions : Type 0 where
  pub max_retries : ℕ
  pub initial_delay_ms : ℕ
  pub backoff_factor : ℕ

-- What a retried call came to: its result, the world after it, and the waits between its attempts.
pub record Retried (W A : Type 0) : Type 0 where
  pub result : Result A
  pub world : W
  pub waits : List ℕ

abbrev delay : RetryOptions → ℕ → ℕ
delay o attempt = o.initial_delay_ms * o.backoff_factor ^ (attempt - 1)

-- No wait follows the last attempt.
abbrev pub waited : RetryOptions → ℕ → ℕ → List ℕ → List ℕ
waited o zero attempt waits = waits
waited o (suc left) attempt waits = waits ++ delay o attempt ∷ []

-- The loop of `withRetry`, by the attempts that are left.
unfoldable pub retry_from :
    {W A : Type 0} → RetryOptions → Effect W A → ℕ → ℕ → Option String → List ℕ → W → Retried W A
retry_from o fn zero attempt last waits w = record { result = err last; world = w; waits = waits }
retry_from o fn (suc left) attempt last waits w = elim ((fn w).0) [
  | ok a ↦ record { result = ok a; world = (fn w).1; waits = waits }
  | err e ↦ retry_from o fn left (attempt + 1) e (waited o left attempt waits) (fn w).1
]

unfoldable pub with_retry : {W A : Type 0} → RetryOptions → Effect W A → W → Retried W A
unfolding retry_from
with_retry o fn w = retry_from o fn o.max_retries 1 none [] w

pub record BalanceRow : Type 0 where
  pub investor_id : String
  pub balance : ℤ

pub record Payout : Type 0 where
  pub investor_id : String
  pub amount : ℤ

-- `balances.reduce((s, b) => s + b.balance, 0)`
unfoldable pub total_from : ℤ → List BalanceRow → ℤ
total_from acc [] = acc
total_from acc (b ∷ bs) = total_from (acc +ℤ b.balance) bs

unfoldable pub amounts_from : ℤ → List Payout → ℤ
amounts_from acc [] = acc
amounts_from acc (p ∷ ps) = amounts_from (acc +ℤ p.amount) ps

-- An integer times a natural number.
unfoldable pub scale : ℕ → ℤ → ℤ
scale r z = sub_ℕ (r * pos_part z) (r * neg_part z)

-- `Math.round(z / d)` for d > 0: the integer nearest to the quotient, a half rounded up. The quotient is
-- the exact one; the double that the source rounds may fall below a half where this is one.
unfoldable pub round_div : ℤ → ℕ → ℤ
round_div z d =
    if leb (2 * neg_part z) (2 * pos_part z + d)
    then pos ((2 * pos_part z + d - 2 * neg_part z) / (2 * d))
    else sub_ℕ 0 ((2 * neg_part z - (2 * pos_part z + d) + (2 * d - 1)) / (2 * d))

-- A share in cents is `raw / total`; the shares have one denominator, so `raw` orders them.
pub record RawShare : Type 0 where
  pub investor_id : String
  pub raw : ℤ

unfoldable pub raw_shares : ℕ → List BalanceRow → List RawShare
unfolding scale
raw_shares revenue [] = []
raw_shares revenue (b ∷ bs) =
    record { investor_id = b.investor_id; raw = scale revenue b.balance } ∷ raw_shares revenue bs

unfoldable pub round_shares : ℕ → List RawShare → List Payout
unfolding round_div
round_shares total [] = []
round_shares total (r ∷ rs) =
    record { investor_id = r.investor_id; amount = round_div r.raw total } ∷ round_shares total rs

-- The loop that looks for the largest raw share: `best` is `rawShares[maxIdx].raw`.
unfoldable pub max_index : ℕ → ℕ → ℤ → List RawShare → ℕ
max_index i max_idx best [] = max_idx
max_index i max_idx best (r ∷ rs) =
    let larger = ltb_ℤ best r.raw in
    max_index (i + 1) (if larger then i else max_idx) (if larger then r.raw else best) rs

largest : List RawShare → ℕ
largest [] = 0
largest (r ∷ rs) = max_index 1 0 r.raw rs

-- `rounded[i].amount += diff`
unfoldable pub add_at : ℕ → ℤ → List Payout → List Payout
add_at i diff [] = []
add_at zero diff (p ∷ ps) = record p { amount = p.amount +ℤ diff } ∷ ps
add_at (suc i) diff (p ∷ ps) = p ∷ add_at i diff ps

is_zero_ℤ : ℤ → Bool
is_zero_ℤ z = pos_part z + neg_part z == 0

-- Steps 4 of `distribute`: the shares in cents, the largest adjusted by what rounding left over.
unfoldable pub compute_payouts : ℕ → ℕ → List BalanceRow → List Payout
unfolding largest is_zero_ℤ
compute_payouts total revenue balances =
    let raws = raw_shares revenue balances in
    let rounded = round_shares total raws in
    let diff = pos revenue -ℤ amounts_from (pos 0) rounded in
    if is_zero_ℤ diff then rounded else add_at (largest raws) diff rounded

pub record Period : Type 0 where
  pub start : Option ℕ
  pub end : Option ℕ

pub record RunInput : Type 0 where
  pub offering_id : String
  pub total_amount : ℤ
  pub distribution_date : ℕ

-- `status: 'processing'` and `status: 'pending'` are the constants of the two inputs.
pub record PayoutInput : Type 0 where
  pub distribution_run_id : String
  pub investor_id : String
  pub amount : ℤ

abbrev run_input : String → ℤ → ℕ → RunInput
run_input offering_id revenue date = record {
  offering_id = offering_id;
  total_amount = revenue;
  distribution_date = date;
}

abbrev payout_input : String → Payout → PayoutInput
payout_input run_id p = record {
  distribution_run_id = run_id;
  investor_id = p.investor_id;
  amount = p.amount;
}

pub data DistributeError : Type 0 where
  offering_required revenue_not_positive period_required no_investors total_not_positive :
      DistributeError
  balances_failed run_failed : (attempts : ℕ) → Option String → DistributeError
  payout_failed : (investor_id : String) (attempts : ℕ) → Option String → DistributeError

pub record DistributionResult : Type 0 where
  pub run_id : String
  pub payouts : List Payout

pub data Outcome : Type 0 where
  done : DistributionResult → Outcome
  failed : DistributeError → Outcome

-- The collaborators: the balance source in use, and the repository's two methods.
pub record Services (W : Type 0) : Type 0 where
  pub fetch_balances : String → Period → Effect W (List BalanceRow)
  pub create_run : RunInput → Effect W String
  pub create_payout : PayoutInput → Effect W (Unit {0})

module _ {W : Type 0} (o : RetryOptions) (svc : Services W) where
  -- Step 6: one payout after another, with the list of those that are made.
  unfoldable pub persist_payouts : String → List Payout → List Payout → W → Outcome × W
  persist_payouts run_id [] made w = (done (record { run_id = run_id; payouts = made }), w)
  persist_payouts run_id (p ∷ ps) made w =
      let r = with_retry o (svc.create_payout (payout_input run_id p)) w in
      elim (r.result) [
        | ok _ ↦ persist_payouts run_id ps (made ++ p ∷ []) r.world
        | err e ↦ (failed (payout_failed p.investor_id o.max_retries e), r.world)
      ]

  -- Steps 5 and 6.
  unfoldable pub persist : String → ℕ → ℤ → List Payout → W → Outcome × W
  persist offering_id date revenue payouts w =
      let r = with_retry o (svc.create_run (run_input offering_id revenue date)) w in
      elim (r.result) [
        | ok run_id ↦ persist_payouts run_id payouts [] r.world
        | err e ↦ (failed (run_failed o.max_retries e), r.world)
      ]

  -- Steps 3 and 4, on the balances that were acquired.
  unfoldable pub distribute_balances : String → ℕ → ℤ → List BalanceRow → W → Outcome × W
  distribute_balances offering_id date revenue [] w = (failed no_investors, w)
  distribute_balances offering_id date revenue (b ∷ bs) w =
      let total = total_from (pos 0) (b ∷ bs) in
      if leb_ℤ total (pos 0)
      then (failed total_not_positive, w)
      else persist offering_id date revenue
          (compute_payouts (pos_part total) (pos_part revenue) (b ∷ bs)) w

  -- Step 2.
  unfoldable pub distribute_period : String → Period → ℕ → ℤ → W → Outcome × W
  distribute_period offering_id period date revenue w =
      let r = with_retry o (svc.fetch_balances offering_id period) w in
      elim (r.result) [
        | ok balances ↦ distribute_balances offering_id date revenue balances r.world
        | err e ↦ (failed (balances_failed o.max_retries e), r.world)
      ]

  unfoldable pub distribute : String → Period → ℤ → W → Outcome × W
  distribute offering_id period revenue w =
      if is_empty offering_id
      then (failed offering_required, w)
      else if leb_ℤ revenue (pos 0)
      then (failed revenue_not_positive, w)
      else elim (period.start) [
        | none ↦ (failed period_required, w)
        | some _ ↦ elim (period.end) [
          | none ↦ (failed period_required, w)
          | some date ↦ distribute_period offering_id period date revenue w
        ]
      ]
