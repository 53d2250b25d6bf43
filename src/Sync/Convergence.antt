-- ===== src/Sync/Convergence.antt =====
-- What a synchronisation leaves in the table, and what a second one finds.
use implement_offering_valid.Common.{
  ℕ, String, ◌≡◌, refl, ap, ◌⊎◌, true, false, Option, none, some, List, arith, str_eq, eq_iff,
  Option-cases, Bool-cases, inl, inr, is_missing,
}
use text.Mathlib.TextPositions.{eq_refl}
use implement_offering_valid.Catalog.{
  Offering, same, UpdateOfferingStateInput, find_by_id, update_state, update_row, set_fields,
}
use implement_offering_valid.Catalog.Updates.{
  find_by_id-update_row, find_by_id-update_other, id-find_by_id,
}
use implement_offering_valid.Sync.{
  OnChainOfferingState, ChainAnswer, state_of, throws, has_changed, sync_from_chain, sync_offering,
  or_blank, succeeded,
}

ChainAnswer-cases :
    (a : ChainAnswer)
    → ((m : String) × (a ≡ throws m)) ⊎ ((st : OnChainOfferingState) × (a ≡ state_of st))
ChainAnswer-cases (throws m) = inl (m, refl)
ChainAnswer-cases (state_of st) = inr (st, refl)

sync_settled :
    (chain : String → ChainAnswer) (failure : Option String) (now : ℕ) (id : String)
    (rows : List Offering) (o : Offering) (st : OnChainOfferingState)
    → find_by_id id rows ≡ some o
    → is_missing o.contract_address ≡ false
    → chain (or_blank o.contract_address) ≡ state_of st
    → has_changed st o ≡ false
    → sync_offering chain failure now id rows
      ≡ (rows, succeeded o.id (or_blank o.contract_address) false)
unfolding sync_offering sync_from_chain
sync_settled chain failure now id rows o st f m c u =
    rw (sync_offering, f, sync_from_chain, m, c, u) refl

abbrev given : OnChainOfferingState → UpdateOfferingStateInput
given st = record { status = some st.status; total_raised = some st.total_raised }

same-some : (x : Option String) (y : String) → same x y ≡ true → x ≡ some y
same-some none y h = absurd (cc)
same-some (some x) y h = ap some ((eq_iff x y).0 h)

unchanged_state :
    (st : OnChainOfferingState) (o : Offering)
    → has_changed st o ≡ false
    → (o.status ≡ some st.status) × (o.total_raised ≡ some st.total_raised)
unchanged_state st o h = (
  same-some o.status st.status (ground arith),
  same-some o.total_raised st.total_raised (ground arith),
)

sync_changed :
    (chain : String → ChainAnswer) (now : ℕ) (id : String) (rows : List Offering) (o : Offering)
    (st : OnChainOfferingState)
    → find_by_id id rows ≡ some o
    → is_missing o.contract_address ≡ false
    → chain (or_blank o.contract_address) ≡ state_of st
    → has_changed st o ≡ true
    → sync_offering chain none now id rows
      ≡ (update_row now o.id (given st) rows, succeeded o.id (or_blank o.contract_address) true)
unfolding sync_offering sync_from_chain update_state
sync_changed chain now id rows o st f m c u =
    rw (sync_offering, f, sync_from_chain, m, c, u, update_state) refl

set_fields_settles :
    (now : ℕ) (st : OnChainOfferingState) (o : Offering)
    → has_changed st (set_fields now (given st) o) ≡ false
set_fields_settles now st o = rw (eq_refl st.status, eq_refl st.total_raised) refl

-- A synchronisation that succeeds ends with the state of some contract answer.
settled_after :
    (chain : String → ChainAnswer) (failure : Option String) (now : ℕ) (id other : String)
    (rows : List Offering)
    → str_eq id other ≡ false
    → (sync_offering chain failure now id rows).1.success ≡ true
    → let rows' = (sync_offering chain failure now id rows).0 in
      (o : Offering) × (st : OnChainOfferingState) × (find_by_id id rows' ≡ some o)
      × (is_missing o.contract_address ≡ false)
      × (chain (or_blank o.contract_address) ≡ state_of st)
      × (has_changed st o ≡ false)
      × (find_by_id other rows' ≡ find_by_id other rows)
unfolding sync_offering sync_from_chain
settled_after chain failure now id other rows d h = elim (Option-cases (find_by_id id rows)) [
  | inl f ↦ absurd (ground arith)
  | inr (o, f) ↦ elim (Bool-cases (is_missing o.contract_address)) [
    | inl m ↦ absurd (ground arith)
    | inr m ↦ elim (ChainAnswer-cases (chain (or_blank o.contract_address))) [
      | inl (e, c) ↦ absurd (ground arith)
      | inr (st, c) ↦ elim (Bool-cases (has_changed st o)) [
        | inr u ↦ rw (sync_settled chain failure now id rows o st f m c u) (o, st, f, m, c, u, refl)
        | inl u ↦ elim (Option-cases failure) [
          | inr (e, w) ↦ absurd (ground arith)
          | inl w ↦
              rw (w, sync_changed chain now id rows o st f m c u)
                (let own = id-find_by_id id rows o f in
                  let mine : str_eq o.id id ≡ true = rw own (eq_refl id) in
                  let apart : str_eq o.id other ≡ false = rw own d in
                  let after : find_by_id id (update_row now o.id (given st) rows)
                      ≡ some (set_fields now (given st) o) =
                    rw (find_by_id-update_row now o.id id (given st) rows, f, mine) refl in
                  (
                    set_fields now (given st) o,
                    st,
                    after,
                    m,
                    c,
                    set_fields_settles now st o,
                    find_by_id-update_other now o.id other (given st) rows apart,
                  ))
        ]
      ]
    ]
  ]
]

-- After a synchronisation that succeeds, the offering is in the table with a contract, and its status and
-- its total are those that the contract answers with. A second synchronisation, whether an UPDATE would
-- work or not, succeeds, reports no update and leaves the table as it is. Other offerings are untouched
-- by the first.
pub sync_offering_converges :
    (chain : String → ChainAnswer) (failure failure' : Option String) (now later : ℕ)
    (id other : String) (rows : List Offering)
    → str_eq id other ≡ false
    → (sync_offering chain failure now id rows).1.success ≡ true
    → let rows' = (sync_offering chain failure now id rows).0 in
      let again = sync_offering chain failure' later id rows' in
      (o : Offering) × (st : OnChainOfferingState) × (find_by_id id rows' ≡ some o)
      × (is_missing o.contract_address ≡ false)
      × (chain (or_blank o.contract_address) ≡ state_of st)
      × (o.status ≡ some st.status)
      × (o.total_raised ≡ some st.total_raised)
      × (again.0 ≡ rows')
      × (again.1.success ≡ true)
      × (again.1.updated ≡ false)
      × (find_by_id other rows' ≡ find_by_id other rows)
sync_offering_converges chain failure failure' now later id other rows d h =
    let (o, st, f, m, c, u, kept) = settled_after chain failure now id other rows d h in
    let rows' = (sync_offering chain failure now id rows).0 in
    let again = sync_settled chain failure' later id rows' o st f m c u in
    let (status, total) = unchanged_state st o u in
    (o, st, f, m, c, status, total, ap (λ z. z.0) again, rw again refl, rw again refl, kept)
