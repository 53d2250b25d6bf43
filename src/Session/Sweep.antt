-- ===== src/Session/Sweep.antt =====
-- The background sweep: which sessions it takes, and its counts.
use implement_offering_valid.Common.{
  ℕ, ◌+◌, ◌≤◌, String, ◌≡◌, refl, Bool, true, false, none, [], ◌∷◌, arith, eq_iff, str_eq,
  if◌then◌else◌, leb, Dict, lookup, lookup-erase, HasUniqueKeys, count_if, length, IsCovered, erase,
  length-erase_found, Option-cases, inl, inr, erase-HasUniqueKeys,
}
use implement_offering_valid.Session.Lookup.{live}
use implement_offering_valid.Session.{Session, Store, evict, sweep_from, sweep}

-- Some listed session under this token has expired.
abbrev gone_in : ℕ → String → Dict Session → Bool
gone_in now j [] = false
gone_in now j ((token, x) ∷ es) =
    if str_eq token j
    then (if leb x.expires_at now then true else gone_in now j es)
    else gone_in now j es

lookup-sweep_from :
    (now : ℕ) (j : String) (es : Dict Session) (n : ℕ) (s : Store)
    → lookup j (sweep_from now es n s).0.sessions
      ≡ (if gone_in now j es then none else lookup j s.sessions)
unfolding sweep_from
lookup-sweep_from now j [] n s = refl
lookup-sweep_from now j ((token, x) ∷ es) n s = ground (
  arith,
  eq_iff token j,
  lookup-erase token j s.sessions,
  lookup-sweep_from now j es n s,
  lookup-sweep_from now j es (n + 1) (evict token s),
)

gone_in_of_none :
    (now : ℕ) (j : String) (es : Dict Session) → lookup j es ≡ none → gone_in now j es ≡ false
unfolding lookup
gone_in_of_none now j [] h = refl
gone_in_of_none now j ((token, x) ∷ es) h = ground (arith, gone_in_of_none now j es)

gone_in-lookup :
    (now : ℕ) (j : String) (es : Dict Session)
    → HasUniqueKeys es
    → (if gone_in now j es then none else lookup j es) ≡ live now (lookup j es)
unfolding lookup
gone_in-lookup now j [] h = refl
gone_in-lookup now j ((token, x) ∷ es) h =
    ground (arith, eq_iff token j, gone_in-lookup now j es h.1, gone_in_of_none now j es)

pub count-sweep_from :
    (now : ℕ) (es : Dict Session) (n : ℕ) (s : Store)
    → let (s', m) = sweep_from now es n s in
      (m ≡ n + count_if (λ e. leb e.1.expires_at now) es)
      × (s'.expired_cleaned ≡ s.expired_cleaned + count_if (λ e. leb e.1.expires_at now) es)
      × (s'.total_created ≡ s.total_created)
      × (s'.ttl_ms ≡ s.ttl_ms)
unfolding sweep_from
count-sweep_from now [] n s = (omega arith, omega arith, refl, refl)
count-sweep_from now ((token, x) ∷ es) n s =
    ground (arith, count-sweep_from now es n s, count-sweep_from now es (n + 1) (evict token s))

-- A sweep of a registry with distinct tokens removes exactly the expired sessions: afterwards a
-- token answers what it answered before unless that has expired. The number returned is the number
-- of expired sessions, and the counter of cleaned sessions grows by it.
pub lookup-sweep :
    (now : ℕ) (j : String) (s : Store)
    → HasUniqueKeys s.sessions
    → let (s', n) = sweep now s in
      (lookup j s'.sessions ≡ live now (lookup j s.sessions))
      × (n ≡ count_if (λ e. leb e.1.expires_at now) s.sessions)
      × (s'.expired_cleaned ≡ s.expired_cleaned + n)
unfolding sweep
lookup-sweep now j s h = ground (
  arith,
  lookup-sweep_from now j s.sessions 0 s,
  gone_in-lookup now j s.sessions h,
  count-sweep_from now s.sessions 0 s,
)

IsCovered-erase :
    (k : String) (es : Dict Session) (m : Dict Session)
    → lookup k es ≡ none
    → IsCovered es m
    → IsCovered es (erase k m)
unfolding lookup
IsCovered-erase k [] m e h = tt
IsCovered-erase k ((j, x) ∷ es) m e h =
    ground (arith, eq_iff j k, eq_iff k j, lookup-erase k j m, IsCovered-erase k es m)

-- Each eviction of the sweep takes at least one entry.
pub sweep_from_accounts :
    (now : ℕ) (es : Dict Session) (n : ℕ) (s : Store)
    → HasUniqueKeys es
    → IsCovered es s.sessions
    → length (sweep_from now es n s).0.sessions + (sweep_from now es n s).0.expired_cleaned
      ≤ length s.sessions + s.expired_cleaned
unfolding sweep_from
sweep_from_accounts now [] n s u c = omega arith
sweep_from_accounts now ((token, x) ∷ es) n s u c = elim (Option-cases (lookup token s.sessions)) [
  | inl e ↦ absurd (c.0 e)
  | inr (y, e) ↦ ground (
    arith,
    sweep_from_accounts now es n s u.1 c.1,
    sweep_from_accounts now es (n + 1) (evict token s) u.1
        (IsCovered-erase token es s.sessions u.0 c.1),
    length-erase_found token y s.sessions e,
  )
]

pub sweep_from-HasUniqueKeys :
    (now : ℕ) (es : Dict Session) (n : ℕ) (s : Store)
    → HasUniqueKeys s.sessions
    → HasUniqueKeys (sweep_from now es n s).0.sessions
unfolding sweep_from
sweep_from-HasUniqueKeys now [] n s u = u
sweep_from-HasUniqueKeys now ((token, x) ∷ es) n s u = ground (
  arith,
  sweep_from-HasUniqueKeys now es n s u,
  sweep_from-HasUniqueKeys now es (n + 1) (evict token s) (erase-HasUniqueKeys token s.sessions u),
)
