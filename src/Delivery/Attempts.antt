-- ===== src/Delivery/Attempts.antt =====
-- How often a delivery is attempted, and what decides how it ends.
use implement_offering_valid.Common.{
  ℕ, zero, suc, ◌+◌, ◌-◌, ◌≤◌, ◌<◌, String, ◌≡◌, refl, Bool, true, false, ◌&&◌, not, Option, none,
  some, List, [], ◌++◌, arith, if◌then◌else◌, ◌⊎◌, sym, Bool-cases, inl, inr,
}
use implement_offering_valid.Delivery.{
  Fetched, response, thrown, DeliveryError, message, http, WebhookEndpointRecord, DeliveryResult,
  Options, is_non_retryable, delays, deliver_from, deliver,
}

-- `ends f`: no attempt follows one that fetched `f`.
abbrev pub ends : Fetched → Bool
ends (thrown m) = false
ends (response status ok) = if ok then true else is_non_retryable status

abbrev pub is_ok : Fetched → Bool
is_ok (thrown m) = false
is_ok (response status ok) = ok

-- `quiet network n`: none of the first `n` attempts ends the delivery.
unfoldable pub quiet : (ℕ → Fetched) → ℕ → Bool
quiet network zero = true
quiet network (suc n) = quiet network n && not (ends (network (suc n)))

-- `Settles network made last r`: the last attempt of `r` comes after `made` and not after `last`, no
-- attempt before it ended the delivery, it did or it is `last`, and it alone decides the success.
abbrev pub Settles : (ℕ → Fetched) → ℕ → ℕ → DeliveryResult → Type 0
Settles network made last r =
    (made < r.attempts)
    × (r.attempts ≤ last)
    × (quiet network (r.attempts - 1) ≡ true)
    × ((r.attempts ≡ last) ⊎ (ends (network r.attempts) ≡ true))
    × (r.success ≡ is_ok (network r.attempts))

Fetched-cases :
    (f : Fetched)
    → ((m : String) × (f ≡ thrown m))
      ⊎ ((status : ℕ) × (f ≡ response status true))
      ⊎ ((status : ℕ) × (f ≡ response status false) × (is_non_retryable status ≡ true))
      ⊎ ((status : ℕ) × (f ≡ response status false) × (is_non_retryable status ≡ false))
Fetched-cases (thrown m) = inl (m, refl)
Fetched-cases (response status true) = inr (inl (status, refl))
Fetched-cases (response status false) = elim (Bool-cases (is_non_retryable status)) [
  | inl e ↦ inr (inr (inl (status, refl, e)))
  | inr e ↦ inr (inr (inr (status, refl, e)))
]

suc_minus_one : (n : ℕ) → suc n - 1 ≡ n
suc_minus_one n = omega arith

quiet_before :
    (network : ℕ → Fetched) (n : ℕ) → quiet network n ≡ true → quiet network (suc n - 1) ≡ true
quiet_before network n q = rw (suc_minus_one n) q

-- The result of the attempt that ends the loop.
Settles-now :
    (network : ℕ → Fetched) (made last : ℕ) (r : DeliveryResult)
    → suc made ≤ last
    → quiet network made ≡ true
    → r.attempts ≡ suc made
    → (suc made ≡ last) ⊎ (ends (network (suc made)) ≡ true)
    → r.success ≡ is_ok (network (suc made))
    → Settles network made last r
Settles-now network made last r l q a d s = rw a (omega arith, l, quiet_before network made q, d, s)

-- One round, given that the rounds after it settle the delivery where it does not end here.
round-Settles :
    (o : Options) (network : ℕ → Fetched) (endpoint : WebhookEndpointRecord) (left made last : ℕ)
    (status : Option ℕ) (error : Option DeliveryError) (waits : List ℕ)
    → suc made ≤ last
    → quiet network made ≡ true
    → (ends (network (suc made)) ≡ false
        → is_ok (network (suc made)) ≡ false
        → (status' : Option ℕ) (error' : Option DeliveryError) (waits' : List ℕ)
        → Settles network made last
            (deliver_from o network endpoint left (suc made) status' error' waits').0)
    → Settles network made last
        (deliver_from o network endpoint (suc left) made status error waits).0
unfolding deliver_from
round-Settles o network endpoint left made last status error waits l q rest =
    let waited = waits ++ delays o (suc made) in
    let goes_on = deliver_from o network endpoint left (suc made) in
    let this = deliver_from o network endpoint (suc left) made status error waits in
    let at_once =
      λ (a : this.0.attempts ≡ suc made) (d : ends (network (suc made)) ≡ true)
          (s : this.0.success ≡ is_ok (network (suc made))).
        Settles-now network made last this.0 l q a (inr d) s in
    elim (Fetched-cases (network (suc made))) [
      | inl (m, e) ↦
          let same : this ≡ goes_on status (some (message m)) waited = rw (deliver_from, e) refl in
          rw same (rest (rw e refl) (rw e refl) status (some (message m)) waited)
      | inr (inl (s, e)) ↦
          at_once (rw (deliver_from, e) refl) (rw e refl) (rw (deliver_from, e) refl)
      | inr (inr (inl (s, e, n))) ↦
          at_once (rw (deliver_from, e, n) refl) (rw (e, n) refl) (rw (deliver_from, e, n) refl)
      | inr (inr (inr (s, e, n))) ↦
          let same : this ≡ goes_on (some s) (some (http s)) waited =
            rw (deliver_from, e, n) refl in
          rw same (rest (rw (e, n) refl) (rw e refl) (some s) (some (http s)) waited)
    ]

weaken :
    (network : ℕ → Fetched) (made last : ℕ) (r : DeliveryResult)
    → Settles network (suc made) last r
    → Settles network made last r
weaken network made last r (l, u, q, d, s) = (omega arith, u, q, d, s)

rest-Settles :
    (o : Options) (network : ℕ → Fetched) (endpoint : WebhookEndpointRecord) (left made last : ℕ)
    (status : Option ℕ) (error : Option DeliveryError) (waits : List ℕ)
    → suc made + left ≡ last
    → quiet network made ≡ true
    → ends (network (suc made)) ≡ false
    → is_ok (network (suc made)) ≡ false
    → Settles network made last
        (deliver_from o network endpoint left (suc made) status error waits).0
unfolding deliver_from quiet
rest-Settles o network endpoint zero made last status error waits l q d s =
    Settles-now network made last
      (deliver_from o network endpoint zero (suc made) status error waits).0 (omega arith) q refl
      (inl (omega arith)) (sym s)
rest-Settles o network endpoint (suc left) made last status error waits l q d s =
    let q' : quiet network (suc made) ≡ true = rw (q, d) refl in
    weaken network made last
      (deliver_from o network endpoint (suc left) (suc made) status error waits).0
      (round-Settles o network endpoint left (suc made) last status error waits (omega arith) q'
        (λ d' s' status' error' waits'.
          rest-Settles o network endpoint left (suc made) last status' error' waits' (omega arith)
            q' d' s'))

-- Where one attempt or more is allowed, a delivery makes at least one and at most that many; no attempt
-- before the last one made was answered by success or by a status that is not to be retried; the last
-- one was, or no more were allowed; and the result is a success exactly when the last attempt's
-- response was.
pub deliver-Settles :
    (o : Options) (network : ℕ → Fetched) (endpoint : WebhookEndpointRecord)
    → 1 ≤ o.max_retries
    → Settles network 0 o.max_retries (deliver o network endpoint).0
unfolding deliver quiet
deliver-Settles o network endpoint h = deliver_positive o.max_retries h
  where
    deliver_positive :
        (n : ℕ) → 1 ≤ n → Settles network 0 n (deliver_from o network endpoint n 0 none none []).0
    deliver_positive zero l = absurd (omega arith)
    deliver_positive (suc n) l =
        round-Settles o network endpoint n 0 (suc n) none none [] (omega arith) refl
          (λ d s status error waits.
            rest-Settles o network endpoint n 0 (suc n) status error waits (omega arith) refl d s)
