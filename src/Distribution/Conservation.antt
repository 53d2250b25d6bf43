-- ===== src/Distribution/Conservation.antt =====
-- What the payouts of `distribute` (src/services/distributionEngine.ts) come to, and when it is refused.
use implement_offering_valid.Common.{
  ℕ, ◌≡◌, refl, sym, ◌∙◌, ap, ◌⊎◌, inl, inr, String, false, Option, none, some, List, [], ◌∷◌, ◌++◌,
  arith, is_empty, ℤ, pos, negsuc, pos_part, leb_ℤ, ◌≤ℤ◌, Bool-cases, Option-cases, eq_iff, ◌<◌,
  ◌≢◌,
}
use mathlib.Core.Path.{subst}
use mathlib.Core.List.{append-nil, append_assoc}
use implement_offering_valid.Distribution.{
  Result, ok, err, RetryOptions, Services, with_retry, BalanceRow, Payout, Period, PayoutInput,
  payout_input, run_input, DistributionResult, Outcome, done, failed, DistributeError,
  revenue_not_positive, offering_required, period_required, persist_payouts, persist,
  distribute_balances, distribute_period, distribute, amounts_from, total_from, compute_payouts,
}
use implement_offering_valid.Distribution.Retry.{with_retry_first}
use implement_offering_valid.Distribution.Rounding.{
  investors, holders, compute_payouts_total, investors-compute_payouts,
}

pub Result-cases :
    {A : Type 0} (r : Result A) → ((a : A) × (r ≡ ok a)) ⊎ ((e : Option String) × (r ≡ err e))
Result-cases (ok a) = inl (a, refl)
Result-cases (err e) = inr (e, refl)

module _ {W : Type 0} (o : RetryOptions) (svc : Services W) where
  -- If the outcome is a distribution, it holds these payouts.
  abbrev Pays : List Payout → Outcome → Type 0
  Pays ps (done r) = r.payouts ≡ ps
  Pays ps (failed e) = Unit

  persist_payouts-Pays :
      (run_id : String) (ps made : List Payout) (w : W)
      → Pays (made ++ ps) (persist_payouts o svc run_id ps made w).0
  unfolding persist_payouts
  persist_payouts-Pays run_id [] made w = sym (append-nil made)
  persist_payouts-Pays run_id (p ∷ ps) made w =
      let r = with_retry o (svc.create_payout (payout_input run_id p)) w in
      elim (Result-cases r.result) [
        | inl (_, e) ↦
            rw (e, persist_payouts)
              (subst (λ all. Pays all (persist_payouts o svc run_id ps (made ++ p ∷ []) r.world).0)
                (append_assoc made (p ∷ []) ps)
                (persist_payouts-Pays run_id ps (made ++ p ∷ []) r.world))
        | inr (_, e) ↦ rw (e, persist_payouts) tt
      ]

  persist-Pays :
      (offering_id : String) (date : ℕ) (revenue : ℤ) (ps : List Payout) (w : W)
      → Pays ps (persist o svc offering_id date revenue ps w).0
  unfolding persist
  persist-Pays offering_id date revenue ps w =
      let r = with_retry o (svc.create_run (run_input offering_id revenue date)) w in
      elim (Result-cases r.result) [
        | inl (run_id, e) ↦ rw (e, persist) (persist_payouts-Pays run_id ps [] r.world)
        | inr (_, e) ↦ rw (e, persist) tt
      ]

  -- If the outcome is a distribution, it pays these holders, in order, this revenue.
  abbrev Conserves : ℤ → List BalanceRow → Outcome → Type 0
  Conserves revenue bs (done r) =
      (investors r.payouts ≡ holders bs) × (amounts_from (pos 0) r.payouts ≡ revenue)
  Conserves revenue bs (failed e) = Unit

  Conserves-of_Pays :
      (revenue : ℕ) (total : ℕ) (b : BalanceRow) (bs : List BalanceRow) (out : Outcome)
      → Pays (compute_payouts total revenue (b ∷ bs)) out
      → Conserves (pos revenue) (b ∷ bs) out
  Conserves-of_Pays revenue total b bs (done r) h =
      rw h
        (investors-compute_payouts total revenue (b ∷ bs), compute_payouts_total total revenue b bs)
  Conserves-of_Pays revenue total b bs (failed e) h = tt

  distribute_balances-Conserves :
      (offering_id : String) (date : ℕ) (revenue : ℤ) (bs : List BalanceRow) (w : W)
      → leb_ℤ revenue (pos 0) ≡ false
      → Conserves revenue bs (distribute_balances o svc offering_id date revenue bs w).0
  unfolding distribute_balances
  distribute_balances-Conserves offering_id date revenue [] w h = tt
  distribute_balances-Conserves offering_id date (negsuc n) (b ∷ bs) w h = absurd (ground arith)
  distribute_balances-Conserves offering_id date (pos n) (b ∷ bs) w h =
      let total = total_from (pos 0) (b ∷ bs) in
      elim (Bool-cases (leb_ℤ total (pos 0))) [
        | inl e ↦ rw (e, distribute_balances) tt
        | inr e ↦
            rw (e, distribute_balances)
              (Conserves-of_Pays n (pos_part total) b bs
                (persist o svc offering_id date (pos n)
                  (compute_payouts (pos_part total) n (b ∷ bs)) w).0
                (persist-Pays offering_id date (pos n) (compute_payouts (pos_part total) n (b ∷ bs))
                  w))
      ]

  distribute_period-Conserves :
      (offering_id : String) (period : Period) (date : ℕ) (revenue : ℤ) (w : W)
      → leb_ℤ revenue (pos 0) ≡ false
      → (res : DistributionResult)
      → (distribute_period o svc offering_id period date revenue w).0 ≡ done res
      → (bs : List BalanceRow) × ((with_retry o (svc.fetch_balances offering_id period) w).result
          ≡ ok bs)
        × Conserves revenue bs (done res)
  unfolding distribute_period
  distribute_period-Conserves offering_id period date revenue w h res d =
      let r = with_retry o (svc.fetch_balances offering_id period) w in
      elim (Result-cases r.result) [
        | inl (bs, e) ↦ (
          bs,
          e,
          subst (Conserves revenue bs) (rw (e, distribute_period) at d)
              (distribute_balances-Conserves offering_id date revenue bs r.world h),
        )
        | inr (_, e) ↦ absurd (cc (rw (e, distribute_period) at d))
      ]

  -- A distribution that is carried out pays every holder whose balance was acquired once, in the
  -- order of the balances, and the amounts add up to the revenue to the cent.
  pub distribute_conserves :
      (offering_id : String) (period : Period) (revenue : ℤ) (w : W) (res : DistributionResult)
      → (distribute o svc offering_id period revenue w).0 ≡ done res
      → (bs : List BalanceRow) × ((with_retry o (svc.fetch_balances offering_id period) w).result
          ≡ ok bs)
        × (investors res.payouts ≡ holders bs)
        × (amounts_from (pos 0) res.payouts ≡ revenue)
  unfolding distribute
  distribute_conserves offering_id period revenue w res d =
      elim (Bool-cases (is_empty offering_id)) [
        | inl e ↦ absurd (ground arith)
        | inr e ↦ elim (Bool-cases (leb_ℤ revenue (pos 0))) [
          | inl f ↦ absurd (ground arith)
          | inr f ↦ elim (Option-cases period.start) [
            | inl g ↦ absurd (ground arith)
            | inr (s, g) ↦ elim (Option-cases period.end) [
              | inl k ↦ absurd (ground arith)
              | inr (date, k) ↦
                  let (bs, fetched, paid) =
                    distribute_period-Conserves offering_id period date revenue w f res
                      (ground arith) in
                  (bs, fetched, paid.0, paid.1)
            ]
          ]
        ]
      ]

  -- A request that is refused for its offering id, its revenue or its period changes nothing in the
  -- outside world: no balance is fetched and nothing is stored.
  pub distribute_refused :
      (offering_id : String) (period : Period) (revenue : ℤ) (w : W)
      → (offering_id ≡ "") ⊎ (revenue ≤ℤ pos 0) ⊎ (period.start ≡ none) ⊎ (period.end ≡ none)
      → (e : DistributeError) × (distribute o svc offering_id period revenue w ≡ (failed e, w))
  unfolding distribute
  distribute_refused offering_id period revenue w h = elim (Bool-cases (is_empty offering_id)) [
    | inl e ↦ (offering_required, ground arith)
    | inr e ↦ elim (Bool-cases (leb_ℤ revenue (pos 0))) [
      | inl f ↦ (revenue_not_positive, ground arith)
      | inr f ↦ (period_required, ground (arith, h, eq_iff offering_id ""))
    ]
  ]

  module _ (works : (input : PayoutInput) (w : W) → (svc.create_payout input w).0 ≡ ok tt)
      (tries : 0 < o.max_retries) where
    retry_works :
        (input : PayoutInput) (w : W) → (with_retry o (svc.create_payout input) w).result ≡ ok tt
    retry_works input w =
        ap (λ r. r.result) (with_retry_first o (svc.create_payout input) w (works input w) tries)

    persist_payouts_done :
        (run_id : String) (ps made : List Payout) (w : W)
        → (persist_payouts o svc run_id ps made w).0
          ≡ done (record { run_id = run_id; payouts = made ++ ps })
    unfolding persist_payouts
    persist_payouts_done run_id [] made w =
        ap (λ ps. done (record { run_id = run_id; payouts = ps })) (sym (append-nil made))
    persist_payouts_done run_id (p ∷ ps) made w =
        let r = with_retry o (svc.create_payout (payout_input run_id p)) w in
        rw (retry_works (payout_input run_id p) w, persist_payouts)
          (persist_payouts_done run_id ps (made ++ p ∷ []) r.world
            ∙ ap (λ all. done (record { run_id = run_id; payouts = all }))
                (append_assoc made (p ∷ []) ps))

    -- With valid arguments, at least one holder, a positive total balance, and collaborators that
    -- answer at the first attempt, a distribution is carried out.
    pub distribute_completes :
        (offering_id run_id : String) (start end : ℕ) (revenue : ℤ) (b : BalanceRow)
        (bs : List BalanceRow) (w : W)
        → offering_id ≢ ""
        → pos 1 ≤ℤ revenue
        → (svc.fetch_balances offering_id (record { start = some start; end = some end }) w).0
          ≡ ok (b ∷ bs)
        → pos 1 ≤ℤ total_from (pos 0) (b ∷ bs)
        → ((v : W) → (svc.create_run (run_input offering_id revenue end) v).0 ≡ ok run_id)
        → (distribute o svc offering_id (record { start = some start; end = some end }) revenue w).0
          ≡ done (record {
            run_id = run_id;
            payouts =
                compute_payouts
                  (pos_part (total_from (pos 0) (b ∷ bs)))
                  (pos_part revenue)
                  (b ∷ bs);
          })
    unfolding distribute distribute_period distribute_balances persist
    distribute_completes offering_id run_id start end revenue b bs w named paid fetched positive
          run =
        let period : Period = record { start = some start; end = some end } in
        let total = total_from (pos 0) (b ∷ bs) in
        let payouts = compute_payouts (pos_part total) (pos_part revenue) (b ∷ bs) in
        let w1 = (svc.fetch_balances offering_id period w).1 in
        let w2 = (svc.create_run (run_input offering_id revenue end) w1).1 in
        ground (
          arith,
          eq_iff offering_id "",
          with_retry_first o (svc.fetch_balances offering_id period) w fetched tries,
          with_retry_first o (svc.create_run (run_input offering_id revenue end)) w1 (run w1) tries,
          persist_payouts_done run_id payouts [] w2,
        )
