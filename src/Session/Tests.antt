-- ===== src/Session/Tests.antt =====
-- The registry at concrete calls, and the theorems at concrete inputs.
use implement_offering_valid.Common.{
  ◌+◌, ◌≤◌, ◌≡◌, refl, true, false, none, leb, lookup, insert, erase, HasUniqueKeys, count_if,
}
use implement_offering_valid.Session.{
  Store, new_store, create, get, touch, delete, sweep, stats, start_sweep, stop,
}
use implement_offering_valid.Session.Lookup.{live, is_found, get-delete}
use implement_offering_valid.Session.Sweep.{lookup-sweep}
use implement_offering_valid.Session.Accounting.{here, next, created, swept, stats_consistent}

abbrev two : Store
two = (create "b" 50 "bob" "investor" (create "a" 10 "ann" "startup" (new_store 100 5)).0).0

-- At 120 the first session has expired and the second has not.
sweep_test :
    ((sweep 120 two).1 ≡ 1)
    × ((get 120 "a" (sweep 120 two).0).1 ≡ none)
    × (is_found (get 120 "b" (sweep 120 two).0).1 ≡ true)
    × ((touch 120 121 "b" two).1 ≡ true)
    × ((touch 120 121 "a" two).1 ≡ false)
    × ((stats 120 two).active_sessions ≡ 1)
    × ((start_sweep two).sweep_timer ≡ true)
    × ((stats 0 (stop two)).active_sessions ≡ 0)
unfolding sweep get touch stats create new_store insert erase lookup start_sweep stop
sweep_test = (refl, refl, refl, refl, refl, refl, refl, refl)

two_unique : HasUniqueKeys two.sessions
unfolding create new_store insert lookup
two_unique = (refl, (refl, tt))

get-delete_example : (get 20 "a" (delete "a" two)).1 ≡ none
get-delete_example = get-delete 20 "a" two

lookup-sweep_example :
    let (s', n) = sweep 120 two in
    (lookup "b" s'.sessions ≡ live 120 (lookup "b" two.sessions))
    × (n ≡ count_if (λ e. leb e.1.expires_at 120) two.sessions)
    × (s'.expired_cleaned ≡ two.expired_cleaned + n)
lookup-sweep_example = lookup-sweep 120 "b" two two_unique

abbrev swept_once : Store
swept_once = (sweep 200 (create "a" 10 "ann" "startup" (new_store 100 5)).0).0

stats_consistent_example :
    ((stats 200 swept_once).active_sessions + (stats 200 swept_once).expired_cleaned
      ≤ (stats 200 swept_once).total_created)
    × HasUniqueKeys swept_once.sessions
stats_consistent_example = stats_consistent 100 5 200 (
    next (next here (created "a" 10 "ann" "startup" (new_store 100 5)))
      (swept 200 (create "a" 10 "ann" "startup" (new_store 100 5)).0))
