-- ===== src/Distribution/Retry.antt =====
-- What a retried call comes to, however often the operation fails.
use implement_offering_valid.Common.{
  ℕ, zero, suc, ◌+◌, ◌<◌, ◌≡◌, refl, sym, ap, ◌∙◌, ◌⊎◌, inl, inr, Option, none, String, List, [],
  ◌∷◌, ◌++◌, arith,
}
use implement_offering_valid.Distribution.{
  Result, ok, err, Effect, RetryOptions, Retried, delay, retry_from, with_retry,
}
use mathlib.Core.List.{append-nil, append_assoc}

-- The operation, begun at `w`, fails `n` times in a row; the failures lead to the world `u`, and the
-- last one threw `l'`, where `l` was thrown before.
pub data Fails {W A : Type 0} (fn : Effect W A)
    : ℕ → W → Option String → W → Option String → Type 0 where
  halt : {w : W} {l : Option String} → Fails fn zero w l w l
  again :
      {n : ℕ} {w u : W} {l e l' : Option String}
      → (fn w).0 ≡ err e
      → Fails fn n (fn w).1 e u l'
      → Fails fn (suc n) w l u l'

-- The waits after the first `k` failures, from the given attempt on: each is the one before times
-- the backoff factor.
pub delays : RetryOptions → ℕ → ℕ → List ℕ
delays o attempt zero = []
delays o attempt (suc k) = delay o attempt ∷ delays o (attempt + 1) k

-- The waits between `n` attempts.
abbrev pub gaps : ℕ → ℕ
gaps zero = 0
gaps (suc k) = k

abbrev pub came_to : {W A : Type 0} → Result A → W → List ℕ → Retried W A
came_to r w waits = record { result = r; world = w; waits = waits }

module _ {W A : Type 0} (o : RetryOptions) (fn : Effect W A) where
  retry_from_ok :
      (a : A) (left attempt : ℕ) (waits : List ℕ) {k : ℕ} {w u : W} {l l' : Option String}
      → Fails fn k w l u l'
      → (fn u).0 ≡ ok a
      → k < left
      → retry_from o fn left attempt l waits w
        ≡ came_to (ok a) (fn u).1 (waits ++ delays o attempt k)
  unfolding retry_from delays
  retry_from_ok a zero attempt waits f e lt = elim lt [ ]
  retry_from_ok a (suc left) attempt waits {u = u} halt e lt =
      rw (e, retry_from) (ap (came_to (ok a) (fn u).1) (sym (append-nil waits)))
  retry_from_ok a (suc zero) attempt waits (again x f) e lt = absurd (omega arith)
  retry_from_ok a (suc (suc left)) attempt waits {u = u} (again {n = n} {e = e'} x f) e lt =
      rw (x, retry_from)
        (retry_from_ok a (suc left) (attempt + 1) (waits ++ delay o attempt ∷ []) {l = e'} f e
            (omega arith)
          ∙ ap (came_to (ok a) (fn u).1)
              (append_assoc waits (delay o attempt ∷ []) (delays o (attempt + 1) n)))

  retry_from_err :
      (attempt : ℕ) (waits : List ℕ) {k : ℕ} {w u : W} {l l' : Option String}
      → Fails fn k w l u l'
      → retry_from o fn k attempt l waits w
        ≡ came_to (err l') u (waits ++ delays o attempt (gaps k))
  unfolding retry_from delays
  retry_from_err attempt waits {u = u} {l' = l'} halt =
      ap (came_to (err l') u) (sym (append-nil waits))
  retry_from_err attempt waits {u = u} {l' = l'} (again x halt) =
      rw (x, retry_from) (ap (came_to (err l') u) (sym (append-nil waits)))
  retry_from_err attempt waits {u = u} {l' = l'} (again {e = e} x (again {n = n} y f)) =
      rw (x, retry_from)
        (retry_from_err (attempt + 1) (waits ++ delay o attempt ∷ []) {l = e} (again y f)
          ∙ ap (came_to (err l') u)
              (append_assoc waits (delay o attempt ∷ []) (delays o (attempt + 1) n)))

  -- The operation succeeds after fewer than `n` failures from `w`, or fails `n` times.
  abbrev Scanned : ℕ → W → Option String → Type 0
  Scanned n w l =
      ((k : ℕ) × (u : W) × (l' : Option String) × (a : A) × Fails fn k w l u l'
        × ((fn u).0 ≡ ok a)
        × (k < n))
      ⊎ ((u : W) × (l' : Option String) × Fails fn n w l u l')

  scan_next :
      (n : ℕ) (w : W) (l : Option String) (r : Result A)
      → (fn w).0 ≡ r
      → ((e : Option String) → Scanned n (fn w).1 e)
      → Scanned (suc n) w l
  scan_next n w l (ok a) h rest = inl (zero, w, l, a, halt, h, omega arith)
  scan_next n w l (err e) h rest = elim (rest e) [
    | inl (k, u, l', a, f, x, lt) ↦ inl (suc k, u, l', a, again h f, x, omega arith)
    | inr (u, l', f) ↦ inr (u, l', again h f)
  ]

  scan : (n : ℕ) (w : W) (l : Option String) → Scanned n w l
  scan zero w l = inr (w, l, halt)
  scan (suc n) w l = scan_next n w l ((fn w).0) refl (λ e. scan n (fn w).1 e)

  -- `withRetry` always ends, and in one of two ways. Either the operation succeeds after `k`
  -- failures, fewer than the attempts allowed: then the call gives its result, has made `k + 1`
  -- attempts, and has waited after each failure. Or all the attempts fail: then it throws the last
  -- error, and has waited between the attempts only.
  pub with_retry_total :
      (w : W)
      → ((k : ℕ) × (u : W) × (l : Option String) × (a : A) × Fails fn k w none u l
          × ((fn u).0 ≡ ok a)
          × (k < o.max_retries)
          × (with_retry o fn w ≡ came_to (ok a) (fn u).1 (delays o 1 k)))
        ⊎ ((u : W) × (l : Option String) × Fails fn o.max_retries w none u l
            × (with_retry o fn w ≡ came_to (err l) u (delays o 1 (gaps o.max_retries))))
  unfolding with_retry
  with_retry_total w = elim (scan o.max_retries w none) [
    | inl (k, u, l, a, f, x, lt) ↦
        inl (k, u, l, a, f, x, lt, retry_from_ok a o.max_retries 1 [] f x lt)
    | inr (u, l, f) ↦ inr (u, l, f, retry_from_err 1 [] f)
  ]

  pub with_retry_first :
      {a : A} (w : W)
      → (fn w).0 ≡ ok a
      → 0 < o.max_retries
      → with_retry o fn w ≡ came_to (ok a) (fn w).1 []
  unfolding with_retry delays
  with_retry_first {a} w h lt = retry_from_ok a o.max_retries 1 [] {l = none} halt h lt
