-- ===== src/Reconciliation/Entitlement.antt =====
-- Who is answered with data by the handlers of the reconciliation routes.
use implement_offering_valid.Common.{
  ℕ, String, ◌≡◌, refl, Bool, true, false, ◌&&◌, ◌||◌, not, Option, none, some, arith, leb, ◌⊎◌,
  str_eq, Option-cases, Bool-cases, inl, inr, is_empty,
}
use implement_offering_valid.Catalog.{Offering, same, or_else}
use implement_offering_valid.Errors.{AppError}
use implement_offering_valid.Reconciliation.{Double, Tables}
use implement_offering_valid.Reconciliation.Handlers.{
  Lookup, found, absent, type_error, Repository, class_of, functions, look_up, method_find_by_id,
  User, Request, Checked, crashed, raised, fine, required, signed_in, allowed, period,
  handle_reconcile, handle_quick_balance_check, handle_verify_distribution, handle_validate_report,
}

abbrev pub is_fine : {A : Type 0} → Checked A → Bool
is_fine crashed = false
is_fine (raised e) = false
is_fine (fine a) = true

-- The owner of an offering, by the answer of a repository.
abbrev pub owns : String → Lookup → Bool
owns user_id (found o) = same (or_else o.issuer_id o.issuer_user_id) user_id
owns user_id absent = false
owns user_id type_error = false

-- Who is answered: an administrator, and the owner by the functions that are given; anyone who is signed
-- in where no repository is given; nobody else where it is an object of the class.
abbrev pub is_entitled : User → Option Repository → String → Bool
is_entitled user none id = true
is_entitled user (some (class_of rows)) id = str_eq user.role "admin"
is_entitled user (some (functions f)) id = str_eq user.role "admin" || owns user.id (f id)

abbrev pub may_read : Option User → Option Repository → Option String → Bool
may_read none offerings id = false
may_read (some user) offerings none = false
may_read (some user) offerings (some id) = not (is_empty user.id) && is_entitled user offerings id

abbrev pub is_admin : Option User → Bool
is_admin none = false
is_admin (some user) = not (is_empty user.id) && str_eq user.role "admin"

-- `a` implies `b`.
abbrev pub implies : Bool → Bool → Bool
implies a b = not a || b

anything_implies : (b : Bool) → implies b true ≡ true
anything_implies b = ground arith

Lookup-cases : (l : Lookup) → (l ≡ type_error) ⊎ (l ≡ absent) ⊎ ((o : Offering) × (l ≡ found o))
Lookup-cases type_error = inl refl
Lookup-cases absent = inr (inl refl)
Lookup-cases (found o) = inr (inr (o, refl))

allowed-is_entitled :
    {B : Type 0}
    → (user : User) (offerings : Option Repository) (id refusal : String) (next : Checked B)
    → implies (is_fine (allowed user offerings id refusal next)) (is_entitled user offerings id)
      ≡ true
unfolding allowed look_up method_find_by_id
allowed-is_entitled user none id refusal next = anything_implies _
allowed-is_entitled user (some (class_of rows)) id refusal next =
    elim (Bool-cases (str_eq user.role "admin")) [
      | inl e ↦ rw e (anything_implies _)
      | inr e ↦ rw e refl
    ]
allowed-is_entitled user (some (functions f)) id refusal next =
    elim (Bool-cases (str_eq user.role "admin")) [
      | inl e ↦ rw e (anything_implies _)
      | inr e ↦ elim (Lookup-cases (f id)) [
        | inl g ↦ rw (e, g) refl
        | inr (inl g) ↦ rw (e, g) refl
        | inr (inr (o, g)) ↦
            elim (Bool-cases (same (or_else o.issuer_id o.issuer_user_id) user.id)) [
              | inl h ↦ rw (e, g, h) (anything_implies _)
              | inr h ↦ rw (e, g, h) refl
            ]
      ]
    ]

through_required :
    {B : Type 0}
    → (text : Option String) (e : AppError) (next : String → Checked B) (x : Bool)
    → ((s : String) → text ≡ some s → implies (is_fine (next s)) x ≡ true)
    → implies (is_fine (required text e next)) x ≡ true
unfolding required
through_required none e next x h = refl
through_required (some s) e next x h = elim (Bool-cases (is_empty s)) [
  | inl g ↦ rw g refl
  | inr g ↦ rw g (h s refl)
]

through_signed_in :
    {B : Type 0}
    → (user : Option User) (next : User → Checked B) (x : Bool)
    → ((u : User) → user ≡ some u → is_empty u.id ≡ false → implies (is_fine (next u)) x ≡ true)
    → implies (is_fine (signed_in user next)) x ≡ true
unfolding signed_in
through_signed_in none next x h = refl
through_signed_in (some u) next x h = elim (Bool-cases (is_empty u.id)) [
  | inl g ↦ rw g refl
  | inr g ↦ rw g (h u refl g)
]

through_period :
    {B D : Type 0}
    → (parse_date : String → Option ℕ) (r : Request D) (missing invalid : String)
      (next : ℕ → ℕ → Checked B) (x : Bool)
    → ((start end : ℕ) → implies (is_fine (next start end)) x ≡ true)
    → implies (is_fine (period parse_date r missing invalid next)) x ≡ true
unfolding period
through_period parse_date r missing invalid next x h = through_required r.period_start _ _ x (λ s p.
    through_required r.period_end _ _ x (λ e q. elim (Option-cases (parse_date s)) [
      | inl f ↦ rw f refl
      | inr (start, f) ↦ elim (Option-cases (parse_date e)) [
        | inl g ↦ rw (f, g) refl
        | inr (end, g) ↦ rw (f, g) (h start end)
      ]
    ]))

allowed-may_read :
    {B : Type 0}
    → (user : User) (signed : Option User) (offerings : Option Repository) (id refusal : String)
      (given : Option String) (next : Checked B)
    → signed ≡ some user
    → is_empty user.id ≡ false
    → given ≡ some id
    → implies (is_fine (allowed user offerings id refusal next)) (may_read signed offerings given)
      ≡ true
allowed-may_read user signed offerings id refusal given next e f g =
    rw (e, g, f) (allowed-is_entitled user offerings id refusal next)

module _ (parse_date : String → Option ℕ) {D : Type 0} (num : Double D)
    (is_nan : String → Bool) where
  -- The books are closed to others: an answer with data is given only to a user who is signed in and
  -- who, where a repository is given, is an administrator or the owner by the answer of its functions.
  -- Where the repository is an object of the program's own class, whose method loses its object in the
  -- call, owners get no data either: only administrators do. The verification of runs is for
  -- administrators.
  pub data_for_entitled_only :
      (tables : Tables) (now : ℕ) (offerings : Option Repository) (r : Request D)
      → let entitled = may_read r.user offerings r.offering_id in
        (implies (is_fine (handle_reconcile parse_date num is_nan tables offerings r)) entitled
          ≡ true)
        × (implies
              (is_fine (handle_quick_balance_check parse_date num is_nan tables offerings r))
              entitled
            ≡ true)
        × (implies
              (is_fine (handle_validate_report parse_date num is_nan tables now offerings r))
              entitled
            ≡ true)
        × (implies
              (is_fine (handle_verify_distribution parse_date num is_nan tables r))
              (is_admin r.user)
            ≡ true)
  unfolding handle_reconcile handle_quick_balance_check handle_validate_report
      handle_verify_distribution
  data_for_entitled_only tables now offerings r = (
    through_signed_in r.user _ _ (λ user e f. through_required r.offering_id _ _ _ (λ id g.
        through_period parse_date r _ _ _ _ (λ start end. elim (Bool-cases (leb end start)) [
          | inl h ↦ rw h refl
          | inr h ↦ rw h (allowed-may_read user r.user offerings id _ r.offering_id _ e f g)
        ]))),
    through_signed_in r.user _ _ (λ user e f. through_required r.offering_id _ _ _ (λ id g.
        through_period parse_date r _ _ _ _
          (λ start end. allowed-may_read user r.user offerings id _ r.offering_id _ e f g))),
    through_signed_in r.user _ _ (λ user e f. through_required r.offering_id _ _ _ (λ id g.
        through_required r.amount _ _ _ (λ amount a.
          elim (Bool-cases (is_nan amount || num.lt (num.parse_float amount) num.nought)) [
            | inl h ↦ rw h refl
            | inr h ↦ rw h (
                through_period parse_date r _ _ _ _
                  (λ start end. allowed-may_read user r.user offerings id _ r.offering_id _ e f g))
          ]))),
    through_signed_in r.user _ _ (λ user e f. through_required r.run_id _ _ _ (λ id g.
        elim (Bool-cases (str_eq user.role "admin")) [
          | inl h ↦ rw (e, f, h) refl
          | inr h ↦ rw h refl
        ])),
  )
