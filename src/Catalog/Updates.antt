-- ===== src/Catalog/Updates.antt =====
-- What an update of an offering changes, and what it leaves.
use implement_offering_valid.Common.{
  ℕ, String, ◌≡◌, refl, ap, false, none, some, List, [], ◌∷◌, arith, eq_iff, if◌then◌else◌, str_eq,
  ◌&&◌, ◌||◌, Option-cases, Bool-cases, inl, inr, is_missing,
}
use implement_offering_valid.Catalog.{
  Offering, UpdateOfferingStateInput, map_offering, row_by_id, find_by_id, set_fields, update_row,
  update_state, update_status, is_owner, is_given,
}

pub row_by_id-update_row :
    (now : ℕ) (id other : String) (input : UpdateOfferingStateInput) (rows : List Offering)
    → row_by_id other (update_row now id input rows) ≡ elim (row_by_id other rows) [
      | none ↦ none
      | some r ↦ some (if str_eq id other then set_fields now input r else r)
    ]
unfolding row_by_id update_row
row_by_id-update_row now id other input [] = refl
row_by_id-update_row now id other input (r ∷ rows) = ground (
  arith,
  row_by_id-update_row now id other input rows,
  eq_iff r.id other,
  eq_iff r.id id,
  eq_iff id other,
)

map_offering-set_fields :
    (now : ℕ) (input : UpdateOfferingStateInput) (r : Offering)
    → map_offering (set_fields now input r) ≡ set_fields now input (map_offering r)
unfolding map_offering
map_offering-set_fields now input r =
    elim (Bool-cases (is_missing r.issuer_id && is_given r.issuer_user_id)) [
      | inl e ↦ rw e refl
      | inr e ↦ rw e refl
    ]

-- After an update, an offering is what it was with the given fields set, and any other is what it was.
pub find_by_id-update_row :
    (now : ℕ) (id other : String) (input : UpdateOfferingStateInput) (rows : List Offering)
    → find_by_id other (update_row now id input rows) ≡ elim (find_by_id other rows) [
      | none ↦ none
      | some r ↦ some (if str_eq id other then set_fields now input r else r)
    ]
unfolding find_by_id
find_by_id-update_row now id other input rows =
    let here = row_by_id-update_row now id other input rows in
    elim (Option-cases (row_by_id other rows)) [
      | inl e ↦ rw (here, e) refl
      | inr (r, e) ↦ elim (Bool-cases (str_eq id other)) [
        | inl d ↦ rw (here, e, d) (ap (λ z. some z) (map_offering-set_fields now input r))
        | inr d ↦ rw (here, e, d) refl
      ]
    ]

pub id-row_by_id :
    (id : String) (rows : List Offering) (r : Offering) → row_by_id id rows ≡ some r → r.id ≡ id
unfolding row_by_id
id-row_by_id id [] r h = absurd (cc)
id-row_by_id id (s ∷ rows) r h = ground (arith, eq_iff s.id id, id-row_by_id id rows r)

id-map_offering : (r : Offering) → (map_offering r).id ≡ r.id
unfolding map_offering
id-map_offering r = ground arith

pub id-find_by_id :
    (id : String) (rows : List Offering) (r : Offering) → find_by_id id rows ≡ some r → r.id ≡ id
unfolding find_by_id
id-find_by_id id rows r h = elim (Option-cases (row_by_id id rows)) [
  | inl e ↦ absurd (ground arith)
  | inr (s, e) ↦
      let found : map_offering s ≡ r = ground arith in
      let own = id-row_by_id id rows s e in let kept = id-map_offering s in cc
]

pub find_by_id-update_other :
    (now : ℕ) (id other : String) (input : UpdateOfferingStateInput) (rows : List Offering)
    → str_eq id other ≡ false
    → find_by_id other (update_row now id input rows) ≡ find_by_id other rows
find_by_id-update_other now id other input rows d =
    let here = find_by_id-update_row now id other input rows in
    elim (Option-cases (find_by_id other rows)) [
      | inl e ↦ rw (here, e) refl
      | inr (r, e) ↦ rw (here, e, d) refl
    ]

is_owner-update_row :
    (now : ℕ) (id other issuer : String) (input : UpdateOfferingStateInput) (rows : List Offering)
    → is_owner other issuer (update_row now id input rows) ≡ is_owner other issuer rows
unfolding is_owner
is_owner-update_row now id other issuer input rows =
    let here = find_by_id-update_row now id other input rows in
    elim (Option-cases (find_by_id other rows)) [
      | inl e ↦ rw (is_owner, here, e) refl
      | inr (r, e) ↦ elim (Bool-cases (str_eq id other)) [
        | inl d ↦ rw (is_owner, here, e, d) refl
        | inr d ↦ rw (is_owner, here, e, d) refl
      ]
    ]

-- No update of an offering's status or amount changes who owns an offering, be it that one or another.
pub is_owner-update_state :
    (now : ℕ) (id other issuer status : String) (input : UpdateOfferingStateInput)
    (rows : List Offering)
    → (is_owner other issuer (update_state now id input rows).0 ≡ is_owner other issuer rows)
      × (is_owner other issuer (update_status now id status rows).0 ≡ is_owner other issuer rows)
unfolding update_state update_status
is_owner-update_state now id other issuer status input rows = (
  elim (Bool-cases (is_given input.status || is_given input.total_raised)) [
    | inl e ↦ rw e (is_owner-update_row now id other issuer input rows)
    | inr e ↦ rw e refl
  ],
  is_owner-update_row now id other issuer (record { status = some status; total_raised = none })
      rows,
)
