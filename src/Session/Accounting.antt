-- ===== src/Session/Accounting.antt =====
-- The counters of the session registry (src/lib/sessionStore.ts) on its reachable states.
use implement_offering_valid.Common.{
  ℕ, ◌+◌, ◌≤◌, String, ◌≡◌, some, arith, length, lookup, HasUniqueKeys, IsCovered,
  insert-HasUniqueKeys, erase-HasUniqueKeys, length-insert, length-erase, length-erase_found,
  Option-cases, Bool-cases, inl, inr, Dict, insert, [], ◌∷◌, eq_iff, ltb, leb, count_if, Bool,
}
use implement_offering_valid.Session.{
  Session, Store, new_store, create, get, touch, delete, sweep, start_sweep, stop, stats, evict,
}
use implement_offering_valid.Session.Sweep.{
  count-sweep_from, sweep_from_accounts, sweep_from-HasUniqueKeys,
}

-- One call of the registry's interface, or one run of its timer.
pub data Step : Store → Store → Type 0 where
  created :
      (token : String) (now : ℕ) (user role : String) (s : Store)
      → Step s (create token now user role s).0
  got : (now : ℕ) (token : String) (s : Store) → Step s (get now token s).0
  touched : (checked now : ℕ) (token : String) (s : Store) → Step s (touch checked now token s).0
  deleted : (token : String) (s : Store) → Step s (delete token s)
  swept : (now : ℕ) (s : Store) → Step s (sweep now s).0
  started : (s : Store) → Step s (start_sweep s)
  stopped : (s : Store) → Step s (stop s)

pub data Reach (s : Store) : Store → Type 0 where
  here : Reach s s
  next : {t u : Store} → Reach s t → Step t u → Reach s u

pub record IsAccounted (s : Store) : Type 0 where
  pub unique : HasUniqueKeys s.sessions
  pub counted : length s.sessions + s.expired_cleaned ≤ s.total_created

evict-IsAccounted :
    (token : String) (x : Session) (s : Store)
    → lookup token s.sessions ≡ some x
    → IsAccounted s
    → IsAccounted (evict token s)
unfolding evict
evict-IsAccounted token x s e h = record {
  unique = erase-HasUniqueKeys token s.sessions h.unique;
  counted = omega (arith, length-erase_found token x s.sessions e, h.counted);
}

length-insert_found :
    (k : String) (w v : Session) (m : Dict Session)
    → lookup k m ≡ some w
    → length (insert k v m) ≡ length m
unfolding lookup insert
length-insert_found k w v [] e = absurd (cc)
length-insert_found k w v ((j, x) ∷ m) e = ground (arith, length-insert_found k w v m)

IsCovered-cons :
    (k : String) (x : Session) (es m : Dict Session) → IsCovered es m → IsCovered es ((k, x) ∷ m)
unfolding lookup
IsCovered-cons k x [] m h = tt
IsCovered-cons k x ((j, y) ∷ es) m h = ground (arith, IsCovered-cons k x es m)

IsCovered-refl : (m : Dict Session) → IsCovered m m
unfolding lookup
IsCovered-refl [] = tt
IsCovered-refl ((k, x) ∷ m) = ground (arith, eq_iff k k, IsCovered-cons k x m m (IsCovered-refl m))

sweep-IsAccounted : (now : ℕ) (s : Store) → IsAccounted s → IsAccounted (sweep now s).0
unfolding sweep
sweep-IsAccounted now s h = record {
  unique = sweep_from-HasUniqueKeys now s.sessions 0 s h.unique;
  counted = omega (
    arith,
    sweep_from_accounts now s.sessions 0 s h.unique (IsCovered-refl s.sessions),
    (count-sweep_from now s.sessions 0 s).2,
  );
}

get-IsAccounted :
    (now : ℕ) (token : String) (s : Store) → IsAccounted s → IsAccounted (get now token s).0
unfolding get
get-IsAccounted now token s h = elim (Option-cases (lookup token s.sessions)) [
  | inl e ↦ rw (e, get) h
  | inr (x, e) ↦
      rw (e, get)
        (elim (Bool-cases (leb x.expires_at now)) [
          | inl gone ↦ rw gone (evict-IsAccounted token x s e h)
          | inr still ↦ rw still h
        ])
]

touch-IsAccounted :
    (checked now : ℕ) (token : String) (s : Store)
    → IsAccounted s
    → IsAccounted (touch checked now token s).0
unfolding touch
touch-IsAccounted checked now token s h = elim (Option-cases (lookup token s.sessions)) [
  | inl e ↦ rw (e, touch) h
  | inr (x, e) ↦
      rw (e, touch)
        (elim (Bool-cases (leb x.expires_at checked)) [
          | inl gone ↦ rw gone (evict-IsAccounted token x s e h)
          | inr still ↦ rw still (
              let moved : Session = record x { expires_at = now + s.ttl_ms; last_seen_at = now } in
              record {
                unique = insert-HasUniqueKeys token moved s.sessions h.unique;
                counted = omega (arith, length-insert_found token x moved s.sessions e, h.counted);
              })
        ])
]

create-IsAccounted :
    (token : String) (now : ℕ) (user role : String) (s : Store)
    → IsAccounted s
    → IsAccounted (create token now user role s).0
unfolding create
create-IsAccounted token now user role s h =
    let x = (create token now user role s).1 in
    record {
      unique = insert-HasUniqueKeys token x s.sessions h.unique;
      counted = omega (arith, length-insert token x s.sessions, h.counted);
    }

Step-IsAccounted : {s t : Store} → Step s t → IsAccounted s → IsAccounted t
unfolding delete start_sweep stop
Step-IsAccounted (created token now user role s) h = create-IsAccounted token now user role s h
Step-IsAccounted (got now token s) h = get-IsAccounted now token s h
Step-IsAccounted (touched checked now token s) h = touch-IsAccounted checked now token s h
Step-IsAccounted (deleted token s) h = record {
  unique = erase-HasUniqueKeys token s.sessions h.unique;
  counted = omega (arith, length-erase token s.sessions, h.counted);
}
Step-IsAccounted (swept now s) h = sweep-IsAccounted now s h
Step-IsAccounted (started s) h = ground arith
Step-IsAccounted (stopped s) h = record { unique = tt; counted = omega (arith, h.counted) }

Reach-IsAccounted : {s t : Store} → IsAccounted s → Reach s t → IsAccounted t
Reach-IsAccounted h here = h
Reach-IsAccounted h (next r st) = Step-IsAccounted st (Reach-IsAccounted h r)

count_if-le-length : (p : String × Session → Bool) (m : Dict Session) → count_if p m ≤ length m
count_if-le-length p [] = omega arith
count_if-le-length p (e ∷ m) = ground (arith, count_if-le-length p m)

-- In every state that the calls of a new registry and its timer can reach, in any order and at any
-- clock readings, the metrics are consistent: the active sessions and the sessions cleaned are
-- together no more than the sessions ever created, and no token is held twice.
pub stats_consistent :
    (ttl interval now : ℕ) {s : Store}
    → Reach (new_store ttl interval) s
    → ((stats now s).active_sessions + (stats now s).expired_cleaned ≤ (stats now s).total_created)
      × HasUniqueKeys s.sessions
unfolding new_store stats
stats_consistent ttl interval now {s} r =
    let h : IsAccounted s = Reach-IsAccounted (record { unique = tt; counted = omega arith }) r in
    (
      omega (arith, h.counted, count_if-le-length (λ e. ltb now e.1.expires_at) s.sessions),
      h.unique,
    )
