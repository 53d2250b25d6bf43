-- ===== src/RateLimit/Tests.antt =====
-- The limiter at concrete requests, and the theorems at concrete inputs.
use implement_offering_valid.Common.{
  ◌≡◌, refl, true, false, none, some, List, [], ◌∷◌, arith, ℕ, String, Dict, lookup, insert, min,
  pos,
}
use implement_offering_valid.RateLimit.{
  WindowEntry, RateLimitOptions, Request, skipped, passed, too_many, handle, Arrival, handle_all,
}
use implement_offering_valid.RateLimit.Window.{requests_of, passed_of, window_exact}

abbrev two_a_minute : RateLimitOptions
two_a_minute = record { limit = 2; window_ms = 60_000; per_user = false; message = "slow down" }

abbrev from_ip : String → Request
from_ip a = record { user_sub = none; ip = some a; remote_address = none }

abbrev at_time : ℕ → String → Arrival
at_time t a = record { now = t; later = t; req = from_ip a }

abbrev busy : List Arrival
busy = at_time 5 "x" ∷ at_time 7 "y" ∷ at_time 9 "x" ∷ at_time 11 "x" ∷ []

third_is_refused :
    handle_all two_a_minute busy []
    ≡ passed (record { limit = 2; remaining = 1; reset_secs = 61 })
      ∷ passed (record { limit = 2; remaining = 1; reset_secs = 61 })
      ∷ passed (record { limit = 2; remaining = 0; reset_secs = 61 })
      ∷ too_many (record { limit = 2; remaining = 0; reset_secs = 61 }) (pos 60) "slow down" 61
      ∷ []
unfolding handle_all handle lookup insert
third_is_refused = refl

-- Without a user the limiter of the authenticated routes stands aside.
no_user_is_skipped :
    (handle (record two_a_minute { per_user = true }) 5 5 (from_ip "x") []).1 ≡ skipped
unfolding handle
no_user_is_skipped = refl

window_exact_example :
    passed_of two_a_minute "ip:x" busy (handle_all two_a_minute busy [])
    ≡ min (requests_of two_a_minute "ip:x" busy) 2
window_exact_example = window_exact two_a_minute "ip:x" 0 busy (omega arith)

abbrev full : Dict WindowEntry
full = ("ip:x", record { count = 9; reset_at = 100 }) ∷ []

full_entry : lookup "ip:x" full ≡ some (record { count = 9; reset_at = 100 })
unfolding lookup
full_entry = refl
