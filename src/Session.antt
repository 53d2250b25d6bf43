-- ===== src/Session.antt =====
-- The in-memory session registry, `SessionStore` (src/lib/sessionStore.ts).
-- The clock and the random token are arguments; one call reads one clock, but for `touch`, which
-- reads it twice. A session is a value in the map: the object that `get` hands out is not followed.
pub mod Lookup
pub mod Sweep
pub mod Accounting
mod Tests
use implement_offering_valid.Common.{
  ℕ, ◌+◌, String, Bool, true, false, Option, none, some, List, [], ◌∷◌, ltb, leb, ◌==◌, ◌||◌,
  if◌then◌else◌, count_if, Dict, lookup, insert, erase,
}

pub record Session : Type 0 where
  pub token : String
  pub user_id : String
  pub role : String
  pub expires_at : ℕ
  pub created_at : ℕ
  pub last_seen_at : ℕ

-- `sweep_timer` says whether the timer is set.
pub record Store : Type 0 where
  pub sessions : Dict Session
  pub ttl_ms : ℕ
  pub sweep_interval_ms : ℕ
  pub sweep_timer : Bool
  pub expired_cleaned : ℕ
  pub total_created : ℕ

pub record Stats : Type 0 where
  pub active_sessions : ℕ
  pub expired_cleaned : ℕ
  pub total_created : ℕ

unfoldable pub new_store : ℕ → ℕ → Store
new_store ttl interval = record {
  sessions = [];
  ttl_ms = ttl;
  sweep_interval_ms = interval;
  sweep_timer = false;
  expired_cleaned = 0;
  total_created = 0;
}

unfoldable pub is_expired : ℕ → Session → Bool
is_expired now session = leb session.expires_at now

unfoldable pub evict : String → Store → Store
evict token s = record s {
  sessions = erase token s.sessions;
  expired_cleaned = s.expired_cleaned + 1;
}

unfoldable pub start_sweep : Store → Store
start_sweep s =
    if s.sweep_timer || s.sweep_interval_ms == 0 then s else record s { sweep_timer = true }

unfoldable pub stop : Store → Store
stop s = record s { sweep_timer = false; sessions = [] }

abbrev fresh_session : String → String → String → ℕ → ℕ → Session
fresh_session token user_id role now ttl = record {
  token = token;
  user_id = user_id;
  role = role;
  expires_at = now + ttl;
  created_at = now;
  last_seen_at = now;
}

unfoldable pub create : String → ℕ → String → String → Store → Store × Session
create token now user_id role s =
    let session = fresh_session token user_id role now s.ttl_ms in
    (
      record s { sessions = insert token session s.sessions; total_created = s.total_created + 1 },
      session,
    )

unfoldable pub get : ℕ → String → Store → Store × Option Session
unfolding is_expired evict
get now token s = elim (lookup token s.sessions) [
  | none ↦ (s, none)
  | some session ↦ if is_expired now session then (evict token s, none) else (s, some session)
]

-- The expiry test reads the clock first, the new expiry reads it again.
unfoldable pub touch : ℕ → ℕ → String → Store → Store × Bool
unfolding is_expired evict
touch checked now token s = elim (lookup token s.sessions) [
  | none ↦ (s, false)
  | some session ↦ if is_expired checked session then (evict token s, false) else (
    record s {
      sessions =
          insert token (record session { expires_at = now + s.ttl_ms; last_seen_at = now })
            s.sessions;
    },
    true,
  )
]

unfoldable pub delete : String → Store → Store
delete token s = record s { sessions = erase token s.sessions }

unfoldable pub stats : ℕ → Store → Stats
stats now s = record {
  active_sessions = count_if (λ e. ltb now e.1.expires_at) s.sessions;
  expired_cleaned = s.expired_cleaned;
  total_created = s.total_created;
}

-- The loop of `sweep` over the entries of the map, with the count so far.
unfoldable pub sweep_from : ℕ → Dict Session → ℕ → Store → Store × ℕ
unfolding is_expired evict
sweep_from now [] evicted s = (s, evicted)
sweep_from now ((token, session) ∷ rest) evicted s =
    let gone = is_expired now session in
    sweep_from now rest (if gone then evicted + 1 else evicted) (if gone then evict token s else s)

unfoldable pub sweep : ℕ → Store → Store × ℕ
unfolding sweep_from
sweep now s = sweep_from now s.sessions 0 s
