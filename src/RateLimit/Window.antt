-- ===== src/RateLimit/Window.antt =====
-- How many requests of one client a window lets through, whatever other clients do meanwhile.
use mathlib.Core.Path.{subst}
use implement_offering_valid.Common.{
  ℕ, suc, ◌+◌, ◌-◌, ◌≤◌, ◌<◌, min, String, ◌≡◌, refl, sym, ◌∙◌, ◌≢◌, Bool, true, false, Option,
  none, some, List, [], ◌∷◌, arith, eq_iff, str_eq, if◌then◌else◌, ltb, All, Dict, lookup,
  lookup-insert, lookup-erase, Option-cases, Bool-cases, inl, inr,
}
use implement_offering_valid.RateLimit.{
  WindowEntry, RateLimitOptions, Request, Outcome, skipped, passed, too_many, increment, reset,
  request_key, handle, Arrival, handle_all,
}

abbrev pub is_from : RateLimitOptions → String → Request → Bool
is_from o key req = elim (request_key o.per_user req) [ none ↦ false | some k ↦ str_eq k key ]

-- The requests of one client.
abbrev pub requests_of : RateLimitOptions → String → List Arrival → ℕ
requests_of o key [] = 0
requests_of o key (a ∷ rest) =
    if is_from o key a.req then suc (requests_of o key rest) else requests_of o key rest

abbrev is_passed : Outcome → Bool
is_passed skipped = false
is_passed (passed h) = true
is_passed (too_many h r m t) = false

-- Those of them that reached the handler.
abbrev pub passed_of : RateLimitOptions → String → List Arrival → List Outcome → ℕ
passed_of o key [] outs = 0
passed_of o key (a ∷ rest) [] = 0
passed_of o key (a ∷ rest) (out ∷ outs) =
    if is_from o key a.req
    then (if is_passed out then suc (passed_of o key rest outs) else passed_of o key rest outs)
    else passed_of o key rest outs

-- The arrival lies in the window that starts at `start`.
abbrev pub IsWithin : RateLimitOptions → ℕ → Arrival → Type 0
IsWithin o start a = (start ≤ a.now) × (a.now < start + o.window_ms)

-- The client has made `n` requests in a window that lasts to the end of this one.
abbrev HasUsed : ℕ → ℕ → Option WindowEntry → Type 0
HasUsed n end none = n ≡ 0
HasUsed n end (some e) = (n ≡ e.count) × (end ≤ e.reset_at)

increment_used :
    (o : RateLimitOptions) (key : String) (start n now : ℕ) (m : Dict WindowEntry)
    → start ≤ now
    → now < start + o.window_ms
    → HasUsed n (start + o.window_ms) (lookup key m)
    → let (m', e) = increment now key o.window_ms m in
      (e.count ≡ suc n) × (lookup key m' ≡ some e) × (start + o.window_ms ≤ e.reset_at)
unfolding increment
increment_used o key start n now m a b h = elim (Option-cases (lookup key m)) [
  | inl e ↦
      let opened : WindowEntry = record { count = 1; reset_at = now + o.window_ms } in
      ground (arith, lookup-insert key key opened m, eq_iff key key)
  | inr (x, e) ↦
      let counted : WindowEntry = record x { count = x.count + 1 } in
      ground (arith, lookup-insert key key counted m, eq_iff key key)
]

pub increment_others :
    (now window : ℕ) (key j : String) (m : Dict WindowEntry)
    → key ≢ j
    → lookup j (increment now key window m).0 ≡ lookup j m
unfolding increment
increment_others now window key j m ne = elim (Option-cases (lookup key m)) [
  | inl e ↦
      let opened : WindowEntry = record { count = 1; reset_at = now + window } in
      ground (arith, lookup-insert key j opened m, eq_iff key j)
  | inr (x, e) ↦
      let opened : WindowEntry = record { count = 1; reset_at = now + window } in
      let counted : WindowEntry = record x { count = x.count + 1 } in
      ground (arith, lookup-insert key j opened m, lookup-insert key j counted m, eq_iff key j)
]

handle_other :
    (o : RateLimitOptions) (key : String) (a : Arrival) (m : Dict WindowEntry)
    → is_from o key a.req ≡ false
    → lookup key (handle o a.now a.later a.req m).0 ≡ lookup key m
unfolding handle
handle_other o key a m h = elim (Option-cases (request_key o.per_user a.req)) [
  | inl e ↦ rw (e, handle) refl
  | inr (k, e) ↦
      rw (e, handle) (increment_others a.now o.window_ms k key m (ground (arith, eq_iff k key)))
]

handle_own :
    (o : RateLimitOptions) (key : String) (start n : ℕ) (a : Arrival) (m : Dict WindowEntry)
    → IsWithin o start a
    → HasUsed n (start + o.window_ms) (lookup key m)
    → is_from o key a.req ≡ true
    → HasUsed (suc n) (start + o.window_ms) (lookup key (handle o a.now a.later a.req m).0)
      × (is_passed (handle o a.now a.later a.req m).1 ≡ ltb n o.limit)
unfolding handle
handle_own o key start n a m w h f = elim (Option-cases (request_key o.per_user a.req)) [
  | inl e ↦ absurd (ground arith)
  | inr (k, e) ↦
      let same : k ≡ key = ground (arith, eq_iff k key) in
      let fact = increment_used o key start n a.now m w.0 w.1 h in
      rw (e, handle) (rw same (rw fact.1 (omega (arith, fact.0, fact.2)), ground (arith, fact)))
]

handle_all_passed :
    (o : RateLimitOptions) (key : String) (start n : ℕ) (arrivals : List Arrival)
    (m : Dict WindowEntry)
    → All (IsWithin o start) arrivals
    → HasUsed n (start + o.window_ms) (lookup key m)
    → passed_of o key arrivals (handle_all o arrivals m)
      ≡ min (requests_of o key arrivals) (o.limit - n)
unfolding handle_all
handle_all_passed o key start n [] m w h = omega arith
handle_all_passed o key start n (a ∷ rest) m w h =
    let m' = (handle o a.now a.later a.req m).0 in
    elim (Bool-cases (is_from o key a.req)) [
      | inl own ↦
          let (used, verdict) = handle_own o key start n a m w.0 h own in
          ground (arith, handle_all_passed o key start (suc n) rest m' w.1 used, verdict, own)
      | inr other ↦
          let same = handle_other o key a m other in
          ground (
            arith,
            handle_all_passed o key start n rest m' w.1
                (subst (HasUsed n (start + o.window_ms)) (sym same) h),
            other,
          )
    ]

-- Over requests of any clients in any order that all arrive within one window's length, a limiter
-- that starts empty lets exactly `limit` requests of a client through, or all of them if
-- they are fewer: the requests of other clients take nothing from its allowance.
pub window_exact :
    (o : RateLimitOptions) (key : String) (start : ℕ) (arrivals : List Arrival)
    → All (IsWithin o start) arrivals
    → passed_of o key arrivals (handle_all o arrivals []) ≡ min (requests_of o key arrivals) o.limit
unfolding lookup
window_exact o key start arrivals w =
    handle_all_passed o key start 0 arrivals [] w refl ∙ omega arith

-- A request at or after the end of its client's window opens a new one: it is counted as the first,
-- whatever the count was. So is the first request after `reset`.
pub increment_reopens :
    (now window : ℕ) (key : String) (x : WindowEntry) (m : Dict WindowEntry)
    → lookup key m ≡ some x
    → x.reset_at ≤ now
    → let fresh : WindowEntry = record { count = 1; reset_at = now + window } in
      ((increment now key window m).1 ≡ fresh)
      × (lookup key (increment now key window m).0 ≡ some fresh)
      × ((increment now key window (reset key m)).1 ≡ fresh)
unfolding increment reset
increment_reopens now window key x m e h =
    let fresh : WindowEntry = record { count = 1; reset_at = now + window } in
    (
      ground arith,
      ground (arith, lookup-insert key key fresh m, eq_iff key key),
      ground (arith, lookup-erase key key m, eq_iff key key),
    )
