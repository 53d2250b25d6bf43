-- ===== src/Idempotency/Exclusion.antt =====
-- The events of the idempotency middleware (src/middleware/idempotency.ts) as a step relation.
use implement_offering_valid.Common.{
  ℕ, suc, ◌+◌, ◌-◌, ◌≤◌, ◌<◌, String, ◌≡◌, refl, Bool, true, false, Option, List, [], ◌∷◌, arith,
  eq_iff, str_eq, if◌then◌else◌, Dict, lookup, insert, erase, contains, lookup-insert, lookup-erase,
  Option-cases, inl, inr, ◌↔◌,
}
use implement_offering_valid.Idempotency.{
  Record, Store, new_store, prune_expired, check_and_reserve, Options, Request, request_key,
  Verdict, bypassed, handled, replayed, conflict, verdict_of, arrive, finish, close,
}

-- The handlers that are running, by key, once for each.
abbrev pub runs : String → List String → ℕ
runs key [] = 0
runs key (k ∷ ks) = if str_eq k key then suc (runs key ks) else runs key ks

abbrev pub ended : String → List String → List String
ended key [] = []
ended key (k ∷ ks) = if str_eq k key then ks else k ∷ ended key ks

-- `running` has the keys of the handlers whose connection is open, `abandoned` those of the handlers that
-- still run though their connection is closed.
pub record System : Type 0 where
  pub store : Store
  pub running : List String
  pub abandoned : List String

abbrev started : Verdict → List String → List String
started bypassed ks = ks
started (handled key) ks = key ∷ ks
started (replayed r) ks = ks
started conflict ks = ks

abbrev pub on_arrive : Options → ℕ → Request → System → System
on_arrive o now req σ =
    let (s', v) = arrive o now req σ.store in record σ { store = s'; running = started v σ.running }

abbrev pub on_finish : Options → ℕ → String → Record → System → System
on_finish o now key r σ = record σ {
  store = close true key (finish o now key r σ.store);
  running = ended key σ.running;
}

abbrev pub on_abort : String → System → System
on_abort key σ = record {
  store = close false key σ.store;
  running = ended key σ.running;
  abandoned = key ∷ σ.abandoned;
}

-- What an abandoned handler still does is not seen: its response emits no `finish` any more.
abbrev pub on_end : String → System → System
on_end key σ = record σ { abandoned = ended key σ.abandoned }

-- A request arrives; a running handler's response is finished and closed; its connection closes first,
-- which does not stop the handler; or a handler that was left so ends.
pub data Step (o : Options) : System → System → Type 0 where
  arrives : (now : ℕ) (req : Request) (σ : System) → Step o σ (on_arrive o now req σ)
  finishes :
      (now : ℕ) (key : String) (r : Record) (σ : System)
      → 0 < runs key σ.running
      → Step o σ (on_finish o now key r σ)
  aborts : (key : String) (σ : System) → 0 < runs key σ.running → Step o σ (on_abort key σ)
  ends : (key : String) (σ : System) → 0 < runs key σ.abandoned → Step o σ (on_end key σ)

pub data Reach (o : Options) (σ : System) : System → Type 0 where
  here : Reach o σ σ
  next : {τ υ : System} → Reach o σ τ → Step o τ υ → Reach o σ υ

abbrev as_count : Bool → ℕ
as_count true = 1
as_count false = 0

-- The keys in flight are the keys of the handlers with an open connection, one handler for each.
abbrev IsExclusive : System → Type 0
IsExclusive σ = (key : String) → runs key σ.running ≡ as_count (contains key σ.store.in_flight)

contains-insert :
    (k j : String) (m : Dict (Unit {0}))
    → contains j (insert k tt m) ≡ (if str_eq k j then true else contains j m)
unfolding contains
contains-insert k j m = ground (arith, lookup-insert k j tt m)

contains-erase :
    (k j : String) (m : Dict (Unit {0}))
    → contains j (erase k m) ≡ (if str_eq k j then false else contains j m)
unfolding contains
contains-erase k j m = ground (arith, lookup-erase k j m)

runs-ended :
    (key j : String) (ks : List String)
    → runs j (ended key ks) ≡ (if str_eq key j then runs j ks - 1 else runs j ks)
runs-ended key j [] = ground arith
runs-ended key j (k ∷ ks) =
    ground (arith, eq_iff k key, eq_iff k j, eq_iff key j, runs-ended key j ks)

pub in_flight-prune :
    (now : ℕ) (key : String) (s : Store) → (prune_expired now key s).in_flight ≡ s.in_flight
unfolding prune_expired
in_flight-prune now key s = ground arith

check_running :
    (now : ℕ) (key j : String) (ks : List String) (s : Store)
    → runs j ks ≡ as_count (contains j s.in_flight)
    → runs key ks ≡ as_count (contains key s.in_flight)
    → let (s', r) = check_and_reserve now key s in
      runs j (started (verdict_of key r) ks) ≡ as_count (contains j s'.in_flight)
unfolding check_and_reserve
check_running now key j ks s h k =
    let p = prune_expired now key s in
    elim (Option-cases (lookup key p.records)) [
      | inr (e, f) ↦ rw (f, check_and_reserve) (rw (in_flight-prune now key s) h)
      | inl f ↦
          rw (f, check_and_reserve)
            (ground (
              arith,
              in_flight-prune now key s,
              contains-insert key j p.in_flight,
              eq_iff key j,
              h,
              k,
            ))
    ]

arrive-IsExclusive :
    (o : Options) (now : ℕ) (req : Request) (σ : System)
    → IsExclusive σ
    → IsExclusive (on_arrive o now req σ)
unfolding arrive
arrive-IsExclusive o now req σ h j = elim (Option-cases (request_key o req)) [
  | inl e ↦ rw (e, arrive) (h j)
  | inr (key, e) ↦ rw (e, arrive) (check_running now key j σ.running σ.store (h j) (h key))
]

Step-IsExclusive : {o : Options} {σ τ : System} → Step o σ τ → IsExclusive σ → IsExclusive τ
unfolding finish close
Step-IsExclusive {o} (arrives now req σ) h = arrive-IsExclusive o now req σ h
Step-IsExclusive {o} (finishes now key r σ live) h = λ j. ground (
  arith,
  runs-ended key j σ.running,
  contains-erase key j σ.store.in_flight,
  h j,
  h key,
  eq_iff key j,
)
Step-IsExclusive (aborts key σ live) h = λ j. ground (
  arith,
  runs-ended key j σ.running,
  contains-erase key j σ.store.in_flight,
  h j,
  h key,
  eq_iff key j,
)
Step-IsExclusive (ends key σ live) h = h

-- How often the connection of a handler of the key closed first.
pub drops : {o : Options} {σ τ : System} → String → Reach o σ τ → ℕ
drops key here = 0
drops key (next r (arrives now req σ)) = drops key r
drops key (next r (finishes now k rec σ live)) = drops key r
drops key (next r (aborts k σ live)) = if str_eq k key then suc (drops key r) else drops key r
drops key (next r (ends k σ live)) = drops key r

abandoned_bound :
    {o : Options} {σ τ : System}
    → (key : String) (r : Reach o σ τ) → runs key σ.abandoned ≡ 0
    → runs key τ.abandoned ≤ drops key r
unfolding drops
abandoned_bound key here h = omega (arith, h)
abandoned_bound key (next r (arrives now req σ)) h = abandoned_bound key r h
abandoned_bound key (next r (finishes now k rec σ live)) h = abandoned_bound key r h
abandoned_bound key (next r (aborts k σ live)) h = ground (arith, abandoned_bound key r h)
abandoned_bound key (next r (ends k σ live)) h =
    ground (arith, abandoned_bound key r h, runs-ended k key σ.abandoned)

Reach-IsExclusive : {o : Options} {σ τ : System} → IsExclusive σ → Reach o σ τ → IsExclusive τ
Reach-IsExclusive h here = h
Reach-IsExclusive h (next r st) = Step-IsExclusive st (Reach-IsExclusive h r)

-- From an empty store, after any interleaving of arrivals, finished responses, broken connections and
-- ends of handlers that were left without one, at most one handler with an open connection is running
-- for each key, and a key is marked in flight exactly when there is such a handler, so that no broken
-- connection blocks the key for good. Of all handlers of a key, the abandoned ones included, at most one
-- more is running than connections of the key have broken: at most one while none has.
pub one_handler_per_key :
    (ttl : Option ℕ) {o : Options} {σ : System} (key : String)
    → (r : Reach o (record { store = new_store ttl; running = []; abandoned = [] }) σ)
    → (runs key σ.running ≤ 1)
      × ((contains key σ.store.in_flight ≡ true) ↔ (0 < runs key σ.running))
      × (runs key σ.running + runs key σ.abandoned ≤ 1 + drops key r)
unfolding new_store contains lookup
one_handler_per_key ttl {σ = σ} key r =
    let h = Reach-IsExclusive (λ j. refl) r key in
    let (one, marked) : (runs key σ.running ≤ 1)
        × ((contains key σ.store.in_flight ≡ true) ↔ (0 < runs key σ.running)) =
      ground (arith, h) in
    (one, marked, omega (arith, one, abandoned_bound key r refl))
