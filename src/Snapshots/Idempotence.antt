-- ===== src/Snapshots/Idempotence.antt =====
-- A snapshot that is asked for again.
use implement_offering_valid.Common.{
  ℕ, String, ◌≡◌, refl, ◌⊎◌, Bool, true, false, ◌&&◌, List, [], ◌∷◌, ◌++◌, arith, eq_iff, str_eq,
  is_empty, keep, newest_first, insert_newest, Option-cases, Bool-cases, inl, inr,
}
use implement_offering_valid.Catalog.{Offering, find_by_id}
use implement_offering_valid.Catalog.Updates.{id-find_by_id}
use implement_offering_valid.Snapshots.{
  HolderBalance, TokenBalanceSnapshot, SnapshotBalancesInput, Outcome, thrown, done, SnapshotError,
  EffectiveSource, find_by_offering_and_period, Service, resolve_effective_source, take_snapshot,
  snapshot_balances, existing, balances_of, insert_all, row_of, or_now,
}

abbrev pub is_nil : List TokenBalanceSnapshot → Bool
is_nil [] = true
is_nil (r ∷ rs) = false

is_nil-insert_newest :
    (f : TokenBalanceSnapshot → ℕ) (x : TokenBalanceSnapshot) (xs : List TokenBalanceSnapshot)
    → is_nil (insert_newest f x xs) ≡ false
unfolding insert_newest
is_nil-insert_newest f x [] = refl
is_nil-insert_newest f x (y ∷ ys) = ground arith

is_nil-newest_first :
    (f : TokenBalanceSnapshot → ℕ) (xs : List TokenBalanceSnapshot)
    → is_nil (newest_first f xs) ≡ is_nil xs
unfolding newest_first
is_nil-newest_first f [] = refl
is_nil-newest_first f (x ∷ xs) = is_nil-insert_newest f x (newest_first f xs)

is_nil-keep_append :
    (p : TokenBalanceSnapshot → Bool) (xs ys : List TokenBalanceSnapshot) (y : TokenBalanceSnapshot)
    → p y ≡ true
    → is_nil (keep p (xs ++ y ∷ ys)) ≡ false
is_nil-keep_append p [] ys y h = ground arith
is_nil-keep_append p (x ∷ xs) ys y h = ground (arith, is_nil-keep_append p xs ys y h)

found_after_insert :
    (offering period : String) (rows made : List TokenBalanceSnapshot) (r : TokenBalanceSnapshot)
    → r.offering_id ≡ offering
    → r.period_id ≡ period
    → is_nil (find_by_offering_and_period offering period (rows ++ r ∷ made)) ≡ false
unfolding find_by_offering_and_period
found_after_insert offering period rows made r e f =
    let p : TokenBalanceSnapshot → Bool =
      λ r. str_eq r.offering_id offering && str_eq r.period_id period in
    let own : p r ≡ true =
      ground (arith, eq_iff r.offering_id offering, eq_iff r.period_id period) in
    rw
      (
        is_nil-newest_first (λ r. r.snapshot_at)
            (newest_first (λ r. r.created_at) (keep p (rows ++ r ∷ made))),
        is_nil-newest_first (λ r. r.created_at) (keep p (rows ++ r ∷ made)),
      )
      (is_nil-keep_append p rows made r own)

List-cases :
    {A : Type 0} → (xs : List A) → (xs ≡ []) ⊎ ((x : A) × (rest : List A) × (xs ≡ x ∷ rest))
List-cases [] = inl refl
List-cases (x ∷ rest) = inr (x, rest, refl)

Outcome-cases :
    {A : Type 0}
    → (o : Outcome A) → ((e : SnapshotError) × (o ≡ thrown e)) ⊎ ((a : A) × (o ≡ done a))
Outcome-cases (thrown e) = inl (e, refl)
Outcome-cases (done a) = inr (a, refl)

abbrev pub is_done : {A : Type 0} → Outcome A → Bool
is_done (thrown e) = false
is_done (done a) = true

module _ (service : Service) where
  inserted :
      (commits : Bool) (now : ℕ) (input : SnapshotBalancesInput) (offering : Offering)
      (source : EffectiveSource) (bs : List HolderBalance) (rows : List TokenBalanceSnapshot)
      → offering.id ≡ input.offering_id
      → is_done (insert_all service commits now input offering source bs rows).1 ≡ true
      → is_nil (
          find_by_offering_and_period input.offering_id input.period_id
            (insert_all service commits now input offering source bs rows).0)
        ≡ false
  inserted commits now input offering source [] rows own h = absurd (ground arith)
  inserted false now input offering source (b ∷ bs) rows own h = absurd (ground arith)
  inserted true now input offering source (b ∷ bs) rows own h =
      found_after_insert input.offering_id input.period_id rows _
        (row_of service offering input.period_id (or_now input.snapshot_at now) now b) own refl

  taken :
      (commits : Bool) (now : ℕ) (input : SnapshotBalancesInput) (offering : Offering)
      (rows : List TokenBalanceSnapshot)
      → offering.id ≡ input.offering_id
      → is_done (take_snapshot service commits now input offering rows).1 ≡ true
      → is_nil (
          find_by_offering_and_period input.offering_id input.period_id
            (take_snapshot service commits now input offering rows).0)
        ≡ false
  unfolding take_snapshot
  taken commits now input offering rows own h =
      let source = resolve_effective_source service input.source in
      elim (Outcome-cases (balances_of service source offering input.period_id)) [
        | inl (e, f) ↦ absurd (ground (arith, f))
        | inr (bs, f) ↦
            rw (take_snapshot, f)
              (inserted commits now input offering source bs rows own (ground (arith, f)))
      ]

  existing_found :
      (input : SnapshotBalancesInput) (rows : List TokenBalanceSnapshot) (r : TokenBalanceSnapshot)
      (rs : List TokenBalanceSnapshot)
      → existing service input rows ≡ r ∷ rs
      → is_nil (find_by_offering_and_period input.offering_id input.period_id rows) ≡ false
  unfolding existing
  existing_found input rows r rs e = elim (Bool-cases input.skip_if_exists) [
    | inl s ↦ ground (arith, s, e)
    | inr s ↦ absurd (ground (arith, s, e))
  ]

  asked_again :
      (commits : Bool) (now : ℕ) (input : SnapshotBalancesInput) (offerings : List Offering)
      (rows : List TokenBalanceSnapshot)
      → input.skip_if_exists ≡ true
      → is_nil (find_by_offering_and_period input.offering_id input.period_id rows) ≡ false
      → (snapshot_balances service commits now input offerings rows).0 ≡ rows
  unfolding snapshot_balances existing
  asked_again commits now input offerings rows s h =
      elim (Bool-cases (is_empty input.offering_id)) [
        | inl a ↦ rw (snapshot_balances, a) refl
        | inr a ↦ elim (Bool-cases (is_empty input.period_id)) [
          | inl b ↦ rw (snapshot_balances, a, b) refl
          | inr b ↦ elim (Option-cases (find_by_id input.offering_id offerings)) [
            | inl c ↦ rw (snapshot_balances, a, b, c) refl
            | inr (offering, c) ↦
                elim (List-cases
                  (find_by_offering_and_period input.offering_id input.period_id rows)) [
                    | inl e ↦ absurd (ground (arith, h, e))
                    | inr (r, rs, e) ↦ rw (snapshot_balances, a, b, c, existing, s, e) refl
                  ]
          ]
        ]
      ]

  -- A call that gives a result leaves snapshots of its offering and period.
  left_behind :
      (commits : Bool) (now : ℕ) (input : SnapshotBalancesInput) (offerings : List Offering)
      (rows : List TokenBalanceSnapshot)
      → is_done (snapshot_balances service commits now input offerings rows).1 ≡ true
      → is_nil (
          find_by_offering_and_period input.offering_id input.period_id
            (snapshot_balances service commits now input offerings rows).0)
        ≡ false
  unfolding snapshot_balances
  left_behind commits now input offerings rows h = elim (Bool-cases (is_empty input.offering_id)) [
    | inl a ↦ absurd (ground (arith, a))
    | inr a ↦ elim (Bool-cases (is_empty input.period_id)) [
      | inl b ↦ absurd (ground (arith, a, b))
      | inr b ↦ elim (Option-cases (find_by_id input.offering_id offerings)) [
        | inl c ↦ absurd (ground (arith, a, b, c))
        | inr (offering, c) ↦ elim (List-cases (existing service input rows)) [
          | inl e ↦
              rw (snapshot_balances, a, b, c, e)
                (taken commits now input offering rows (id-find_by_id _ offerings offering c)
                  (ground (arith, a, b, c, e)))
          | inr (r, rs, e) ↦ rw (snapshot_balances, a, b, c, e) (existing_found input rows r rs e)
        ]
      ]
    ]
  ]

  -- Snapshots are taken once for a period: after a call that gave a result, a call for the same offering
  -- and period that skips what exists inserts nothing, whatever its source and clock and the
  -- offerings then.
  pub snapshot_taken_once :
      (commits commits' : Bool) (now later : ℕ) (input again : SnapshotBalancesInput)
      (offerings offerings' : List Offering) (rows : List TokenBalanceSnapshot)
      → is_done (snapshot_balances service commits now input offerings rows).1 ≡ true
      → again.offering_id ≡ input.offering_id
      → again.period_id ≡ input.period_id
      → again.skip_if_exists ≡ true
      → let rows' = (snapshot_balances service commits now input offerings rows).0 in
        (snapshot_balances service commits' later again offerings' rows').0 ≡ rows'
  snapshot_taken_once commits commits' now later input again offerings offerings' rows h a b s =
      let rows' = (snapshot_balances service commits now input offerings rows).0 in
      asked_again commits' later again offerings' rows' s
        (rw (a, b) (left_behind commits now input offerings rows h))
