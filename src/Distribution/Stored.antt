-- ===== src/Distribution/Stored.antt =====
-- The payout rows that `distribute` (src/services/distributionEngine.ts) leaves in the table.
use implement_offering_valid.Common.{
  ℕ, zero, suc, ◌+◌, ◌≡◌, refl, sym, ◌∙◌, ap, inl, inr, String, Option, none, List, [], ◌∷◌, ◌++◌,
  is_empty, ℤ, pos, leb_ℤ, Bool-cases, Option-cases, All, ◌+ℤ◌, pos_part,
}
use mathlib.Core.Path.{subst}
use mathlib.Core.List.{append-nil, append_assoc}
use implement_offering_valid.Distribution.{
  ok, err, Effect, RetryOptions, Services, retry_from, with_retry, waited, BalanceRow, Payout,
  Period, RunInput, PayoutInput, payout_input, run_input, DistributionResult, Outcome, done, failed,
  persist_payouts, persist, distribute_balances, distribute_period, distribute, amounts_from,
  total_from, compute_payouts,
}
use implement_offering_valid.Distribution.Rounding.{investors, holders}
use implement_offering_valid.Distribution.Conservation.{Result-cases, distribute_conserves}

-- The investors and the amounts of rows of the table.
pub row_investors : List PayoutInput → List String
row_investors [] = []
row_investors (i ∷ is) = i.investor_id ∷ row_investors is

pub row_amounts : ℤ → List PayoutInput → ℤ
row_amounts acc [] = acc
row_amounts acc (i ∷ is) = row_amounts (acc +ℤ i.amount) is

rows_of : String → List Payout → List PayoutInput
rows_of run_id [] = []
rows_of run_id (p ∷ ps) = payout_input run_id p ∷ rows_of run_id ps

row_investors-rows_of :
    (run_id : String) (ps : List Payout) → row_investors (rows_of run_id ps) ≡ investors ps
unfolding row_investors rows_of investors
row_investors-rows_of run_id [] = refl
row_investors-rows_of run_id (p ∷ ps) =
    ap (λ l. p.investor_id ∷ l) (row_investors-rows_of run_id ps)

row_amounts-rows_of :
    (run_id : String) (acc : ℤ) (ps : List Payout)
    → row_amounts acc (rows_of run_id ps) ≡ amounts_from acc ps
unfolding row_amounts rows_of amounts_from
row_amounts-rows_of run_id acc [] = refl
row_amounts-rows_of run_id acc (p ∷ ps) = row_amounts-rows_of run_id (acc +ℤ p.amount) ps

rows_of-run :
    (run_id : String) (ps : List Payout)
    → All (λ i. i.distribution_run_id ≡ run_id) (rows_of run_id ps)
unfolding rows_of
rows_of-run run_id [] = tt
rows_of-run run_id (p ∷ ps) = (refl, rows_of-run run_id ps)

-- What is left of a retried operation in a table: nothing, where no attempt touches it; the rows of
-- the one attempt that succeeds, where a failed attempt leaves nothing.
module _ {W A : Type 0} (o : RetryOptions) (rows : W → List PayoutInput) (fn : Effect W A) where
  retry_keeps :
      (left attempt : ℕ) (last : Option String) (waits : List ℕ) (w : W)
      → ((v : W) → rows (fn v).1 ≡ rows v)
      → rows (retry_from o fn left attempt last waits w).world ≡ rows w
  unfolding retry_from
  retry_keeps zero attempt last waits w keeps = refl
  retry_keeps (suc left) attempt last waits w keeps = elim (Result-cases (fn w).0) [
    | inl (a, e) ↦ rw (e, retry_from) (keeps w)
    | inr (x, e) ↦
        rw (e, retry_from)
          (retry_keeps left (attempt + 1) x (waited o left attempt waits) (fn w).1 keeps ∙ keeps w)
  ]

  retry_adds :
      (new : List PayoutInput) (left attempt : ℕ) (last : Option String) (waits : List ℕ) (w : W)
      (a : A)
      → ((v : W) (b : A) → (fn v).0 ≡ ok b → rows (fn v).1 ≡ rows v ++ new)
      → ((v : W) (x : Option String) → (fn v).0 ≡ err x → rows (fn v).1 ≡ rows v)
      → (retry_from o fn left attempt last waits w).result ≡ ok a
      → rows (retry_from o fn left attempt last waits w).world ≡ rows w ++ new
  unfolding retry_from
  retry_adds new zero attempt last waits w a adds fails h = absurd (cc)
  retry_adds new (suc left) attempt last waits w a adds fails h = elim (Result-cases (fn w).0) [
    | inl (b, e) ↦ rw (e, retry_from) (adds w b e)
    | inr (x, e) ↦
        rw (e, retry_from)
          (retry_adds new left (attempt + 1) x (waited o left attempt waits) (fn w).1 a adds fails
              (rw (e, retry_from) at h)
            ∙ ap (λ l. l ++ new) (fails w x e))
  ]

module _ {W : Type 0} (o : RetryOptions) (svc : Services W) where
  -- `rows` is the table of payouts: a payout is stored when its INSERT succeeds and only then, and
  -- the other two calls leave the table alone.
  abbrev pub IsTable : (W → List PayoutInput) → Type 0
  IsTable rows =
      ((offering_id : String) (period : Period) (w : W)
        → rows (svc.fetch_balances offering_id period w).1 ≡ rows w)
      × ((input : RunInput) (w : W) → rows (svc.create_run input w).1 ≡ rows w)
      × ((input : PayoutInput) (w : W) (a : Unit {0})
          → (svc.create_payout input w).0 ≡ ok a
          → rows (svc.create_payout input w).1 ≡ rows w ++ input ∷ [])
      × ((input : PayoutInput) (w : W) (x : Option String)
          → (svc.create_payout input w).0 ≡ err x
          → rows (svc.create_payout input w).1 ≡ rows w)

  module _ (rows : W → List PayoutInput) (table : IsTable rows) where
    -- If the outcome is a distribution, its payouts are the rows that came after `before`.
    abbrev Stores : List PayoutInput → Outcome × W → Type 0
    Stores before (done r, w) = rows w ≡ before ++ rows_of r.run_id r.payouts
    Stores before (failed e, w) = Unit

    rows_of-append :
        (run_id : String) (ps qs : List Payout)
        → rows_of run_id (ps ++ qs) ≡ rows_of run_id ps ++ rows_of run_id qs
    unfolding rows_of
    rows_of-append run_id [] qs = refl
    rows_of-append run_id (p ∷ ps) qs =
        ap (λ l. payout_input run_id p ∷ l) (rows_of-append run_id ps qs)

    persist_payouts-Stores :
        (before : List PayoutInput) (run_id : String) (ps made : List Payout) (w : W)
        → rows w ≡ before ++ rows_of run_id made
        → Stores before (persist_payouts o svc run_id ps made w)
    unfolding persist_payouts with_retry rows_of
    persist_payouts-Stores before run_id [] made w h = h
    persist_payouts-Stores before run_id (p ∷ ps) made w h =
        let input = payout_input run_id p in
        let r = with_retry o (svc.create_payout input) w in
        elim (Result-cases r.result) [
          | inl (a, e) ↦
              let grown : rows r.world ≡ rows w ++ input ∷ [] =
                retry_adds o rows (svc.create_payout input) (input ∷ []) o.max_retries 1 none [] w a
                  (table.2 input) (table.3 input) e in
              rw (e, persist_payouts)
                (persist_payouts-Stores before run_id ps (made ++ p ∷ []) r.world (
                  grown
                  ∙ ap (λ l. l ++ input ∷ []) h
                  ∙ append_assoc before (rows_of run_id made) (input ∷ [])
                  ∙ ap (λ l. before ++ l) (sym (rows_of-append run_id made (p ∷ [])))))
          | inr (_, e) ↦ rw (e, persist_payouts) tt
        ]

    persist-Stores :
        (offering_id : String) (date : ℕ) (revenue : ℤ) (ps : List Payout) (w : W)
        → Stores (rows w) (persist o svc offering_id date revenue ps w)
    unfolding persist with_retry rows_of
    persist-Stores offering_id date revenue ps w =
        let input = run_input offering_id revenue date in
        let r = with_retry o (svc.create_run input) w in
        let kept : rows r.world ≡ rows w =
          retry_keeps o rows (svc.create_run input) o.max_retries 1 none [] w (table.1 input) in
        elim (Result-cases r.result) [
          | inl (run_id, e) ↦
              rw (e, persist)
                (persist_payouts-Stores (rows w) run_id ps [] r.world
                  (kept ∙ sym (append-nil (rows w))))
          | inr (_, e) ↦ rw (e, persist) tt
        ]

    distribute_balances-Stores :
        (offering_id : String) (date : ℕ) (revenue : ℤ) (bs : List BalanceRow) (w : W)
        → Stores (rows w) (distribute_balances o svc offering_id date revenue bs w)
    unfolding distribute_balances
    distribute_balances-Stores offering_id date revenue [] w = tt
    distribute_balances-Stores offering_id date revenue (b ∷ bs) w =
        let total = total_from (pos 0) (b ∷ bs) in
        elim (Bool-cases (leb_ℤ total (pos 0))) [
          | inl e ↦ rw (e, distribute_balances) tt
          | inr e ↦
              rw (e, distribute_balances)
                (persist-Stores offering_id date revenue
                  (compute_payouts (pos_part total) (pos_part revenue) (b ∷ bs)) w)
        ]

    distribute_period-Stores :
        (offering_id : String) (period : Period) (date : ℕ) (revenue : ℤ) (w : W)
        → Stores (rows w) (distribute_period o svc offering_id period date revenue w)
    unfolding distribute_period with_retry
    distribute_period-Stores offering_id period date revenue w =
        let r = with_retry o (svc.fetch_balances offering_id period) w in
        let kept : rows r.world ≡ rows w =
          retry_keeps o rows (svc.fetch_balances offering_id period) o.max_retries 1 none [] w
            (table.0 offering_id period) in
        elim (Result-cases r.result) [
          | inl (bs, e) ↦
              rw (e, distribute_period)
                (subst
                  (λ before.
                    Stores before (distribute_balances o svc offering_id date revenue bs r.world))
                  kept (distribute_balances-Stores offering_id date revenue bs r.world))
          | inr (_, e) ↦ rw (e, distribute_period) tt
        ]

    distribute-Stores :
        (offering_id : String) (period : Period) (revenue : ℤ) (w : W)
        → Stores (rows w) (distribute o svc offering_id period revenue w)
    unfolding distribute
    distribute-Stores offering_id period revenue w = elim (Bool-cases (is_empty offering_id)) [
      | inl e ↦ rw (e, distribute) tt
      | inr e ↦ elim (Bool-cases (leb_ℤ revenue (pos 0))) [
        | inl f ↦ rw (e, f, distribute) tt
        | inr f ↦ elim (Option-cases period.start) [
          | inl g ↦ rw (e, f, g, distribute) tt
          | inr (s, g) ↦ elim (Option-cases period.end) [
            | inl k ↦ rw (e, f, g, k, distribute) tt
            | inr (date, k) ↦
                rw (e, f, g, k, distribute)
                  (distribute_period-Stores offering_id period date revenue w)
          ]
        ]
      ]
    ]

    -- Where a payout is stored exactly when its INSERT succeeds (an INSERT that is committed and whose
    -- answer is lost is excluded), a distribution that is carried out leaves, after the rows that
    -- were there, one row of its run for every holder whose balance was acquired, in the order of the
    -- balances, whatever attempts failed and were repeated; and the stored amounts, like those it
    -- returns, add up to the revenue to the cent.
    pub revenue_is_stored :
        (offering_id : String) (period : Period) (revenue : ℤ) (w : W) (res : DistributionResult)
        → (distribute o svc offering_id period revenue w).0 ≡ done res
        → (bs : List BalanceRow) × (stored : List PayoutInput) × ((with_retry o
              (svc.fetch_balances offering_id period)
              w).result
            ≡ ok bs)
          × (rows (distribute o svc offering_id period revenue w).1 ≡ rows w ++ stored)
          × (row_investors stored ≡ holders bs)
          × (row_amounts (pos 0) stored ≡ revenue)
          × All (λ i. i.distribution_run_id ≡ res.run_id) stored
          × (amounts_from (pos 0) res.payouts ≡ revenue)
    revenue_is_stored offering_id period revenue w res d =
        let (bs, fetched, who, sum) =
          distribute_conserves o svc offering_id period revenue w res d in
        let out = distribute o svc offering_id period revenue w in
        let grown : Stores (rows w) (done res, out.1) =
          subst (λ x. Stores (rows w) (x, out.1)) d
            (distribute-Stores offering_id period revenue w) in
        (
          bs,
          rows_of res.run_id res.payouts,
          fetched,
          grown,
          row_investors-rows_of res.run_id res.payouts ∙ who,
          row_amounts-rows_of res.run_id (pos 0) res.payouts ∙ sum,
          rows_of-run res.run_id res.payouts,
          sum,
        )
