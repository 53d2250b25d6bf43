-- ===== src/Distribution/Tests.antt =====
-- The engine against concrete collaborators, and the theorems at concrete inputs.
use implement_offering_valid.Common.{
  ℕ, ◌+◌, ◌<◌, ◌≡◌, refl, ◌⊎◌, ◌-◌, ◌*◌, String, none, some, Option, List, [], ◌∷◌, arith, ltb,
  if◌then◌else◌, ◌==◌, ◌++◌, All, ℤ, pos, pos_part, ◌+ℤ◌, ◌-ℤ◌,
}
use implement_offering_valid.Distribution.{
  ok, Effect, RetryOptions, with_retry, retry_from, BalanceRow, Payout, PayoutInput, Period,
  Services, done, err, DistributionResult, distribute, distribute_period, distribute_balances,
  persist, persist_payouts, compute_payouts, raw_shares, round_shares, amounts_from, total_from,
  add_at, max_index,
}
use implement_offering_valid.Distribution.Retry.{Fails, delays, gaps, came_to, with_retry_total}
use implement_offering_valid.Distribution.Rounding.{holders}
use implement_offering_valid.Distribution.Conservation.{distribute_completes}
use implement_offering_valid.Distribution.Stored.{
  IsTable, row_investors, row_amounts, revenue_is_stored,
}
use implement_offering_valid.Distribution.Negative.{first_amount, first_amount_negative}

abbrev thrice : RetryOptions
thrice = record { max_retries = 3; initial_delay_ms = 500; backoff_factor = 2 }

abbrev held : String → ℕ → BalanceRow
held who n = record { investor_id = who; balance = pos n }

abbrev three : List BalanceRow
three = held "a" 1 ∷ held "b" 1 ∷ held "c" 1 ∷ []

abbrev paid : String → ℤ → Payout
paid who n = record { investor_id = who; amount = n }

-- The world counts the calls of the repository; the first two calls of all fail.
abbrev flaky_run : Effect ℕ String
flaky_run n = (if ltb n 2 then err (some "timeout") else ok "run", n + 1)

abbrev steady : Services ℕ
steady = record {
  fetch_balances = λ o p n. (ok three, n);
  create_run = λ i n. (ok "run", n + 1);
  create_payout = λ i n. (ok tt, n + 1);
}

retry_test : with_retry thrice flaky_run 0 ≡ came_to {A = String} (ok "run") 3 (500 ∷ 1000 ∷ [])
unfolding with_retry
retry_test = refl

abbrev may : Period
may = record { start = some 1; end = some 2 }

abbrev hundred_cents : DistributionResult
hundred_cents = record {
  run_id = "run";
  payouts = paid "a" (pos 34) ∷ paid "b" (pos 33) ∷ paid "c" (pos 33) ∷ [];
}

-- 1.00 over three equal holders: the first one takes the cent that rounding left over.
distribute_test : (distribute thrice steady "o1" may (pos 100) 0).0 ≡ done hundred_cents
unfolding distribute distribute_period distribute_balances persist persist_payouts compute_payouts
    raw_shares round_shares amounts_from total_from add_at max_index with_retry ◌+ℤ◌ ◌-ℤ◌
distribute_test = refl

with_retry_total_example :
    ((k : ℕ) × (u : ℕ) × (l : Option String) × (a : String) × Fails flaky_run k 0 none u l
      × ((flaky_run u).0 ≡ ok a)
      × (k < 3)
      × (with_retry thrice flaky_run 0 ≡ came_to (ok a) (flaky_run u).1 (delays thrice 1 k)))
    ⊎ ((u : ℕ) × (l : Option String) × Fails flaky_run 3 0 none u l
        × (with_retry thrice flaky_run 0 ≡ came_to (err l) u (delays thrice 1 (gaps 3))))
with_retry_total_example = with_retry_total thrice flaky_run 0

-- The world counts the attempts and has the table; the first attempt of all to store a payout fails.
abbrev table : Services (ℕ × List PayoutInput)
table = record {
  fetch_balances = λ o p w. (ok three, w);
  create_run = λ i w. (ok "run", w);
  create_payout = λ i w.
      if w.0 == 0 then (err (some "timeout"), (1, w.1)) else (ok tt, (w.0 + 1, w.1 ++ i ∷ []));
}

stored_on_success :
    (input : PayoutInput) (w : ℕ × List PayoutInput) (a : Unit {0})
    → (table.create_payout input w).0 ≡ ok a
    → (table.create_payout input w).1.1 ≡ w.1 ++ input ∷ []
stored_on_success input w a e = ground arith

kept_on_failure :
    (input : PayoutInput) (w : ℕ × List PayoutInput) (x : Option String)
    → (table.create_payout input w).0 ≡ err x
    → (table.create_payout input w).1.1 ≡ w.1
kept_on_failure input w x e = ground arith

is_table : IsTable thrice table (λ w. w.1)
is_table = (λ o p w. refl, λ i w. refl, stored_on_success, kept_on_failure)

table_test : (distribute thrice table "o1" may (pos 100) (0, [])).0 ≡ done hundred_cents
unfolding distribute distribute_period distribute_balances persist persist_payouts compute_payouts
    raw_shares round_shares amounts_from total_from add_at max_index with_retry retry_from ◌+ℤ◌ ◌-ℤ◌
table_test = refl

revenue_is_stored_example :
    (bs : List BalanceRow) × (stored : List PayoutInput) × ((with_retry thrice
        (table.fetch_balances "o1" may)
        (0, [])).result
      ≡ ok bs)
    × ((distribute thrice table "o1" may (pos 100) (0, [])).1.1 ≡ [] ++ stored)
    × (row_investors stored ≡ holders bs)
    × (row_amounts (pos 0) stored ≡ pos 100)
    × All (λ i. i.distribution_run_id ≡ "run") stored
    × (amounts_from (pos 0) hundred_cents.payouts ≡ pos 100)
revenue_is_stored_example =
    revenue_is_stored thrice table (λ w. w.1) is_table "o1" may (pos 100) (0, []) hundred_cents
      table_test

distribute_completes_example :
    (distribute thrice steady "o1" may (pos 100) 0).0
    ≡ done (record {
      run_id = "run";
      payouts = compute_payouts (pos_part (total_from (pos 0) three)) 100 three;
    })
unfolding total_from ◌+ℤ◌
distribute_completes_example =
    distribute_completes thrice steady (λ i w. refl) (omega arith) "o1" "run" 1 2 (pos 100)
      (held "a" 1) (held "b" 1 ∷ held "c" 1 ∷ []) 0 (λ e. cc) (omega arith) refl (omega arith)
      (λ v. refl)

-- 0.03 over five equal holders: the first payout is -0.01.
first_amount_negative_example :
    first_amount (
      compute_payouts
        (5 * 5)
        3
        (held "a" 5 ∷ held "b" 5 ∷ held "c" 5 ∷ held "d" 5 ∷ held "e" 5 ∷ []))
    ≡ pos 0 -ℤ pos (5 - 1 - 3)
first_amount_negative_example =
    first_amount_negative 5 3 (held "a" 5) (held "b" 5 ∷ held "c" 5 ∷ held "d" 5 ∷ held "e" 5 ∷ [])
      (omega arith) (refl, (refl, (refl, (refl, (refl, tt))))) (omega arith) (omega arith)
      (omega arith) (omega arith)
