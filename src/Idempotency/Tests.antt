-- ===== src/Idempotency/Tests.antt =====
-- The middleware at concrete requests, and the theorems at concrete inputs.
use implement_offering_valid.Common.{
  ◌≤◌, ◌<◌, ◌≡◌, refl, ◌↔◌, arith, true, false, none, some, [], ◌∷◌, ltb, if◌then◌else◌, lookup,
  insert, erase, ◌+◌, contains, String, trim, to_upper, to_lower, has_part,
}
use implement_offering_valid.Idempotency.{
  Record, new_store, Options, Request, request_key, has_method, arrive, finish, check_and_reserve,
  prune_expired, close, release, handled, replayed, conflict, replay_response, json_of, raw,
}
use implement_offering_valid.Idempotency.Exclusion.{
  System, Reach, here, next, arrives, aborts, on_arrive, on_abort, runs, drops, one_handler_per_key,
}
use implement_offering_valid.Idempotency.Replay.{is_kept, arrive-finish}

abbrev defaults : Options
defaults = record { methods = "POST" ∷ "PATCH" ∷ []; should_store = λ s. ltb s 500 }

abbrev post : String → Request
post key = record { method = "post"; header = some key }

abbrev created : Record
created = record {
  status = 201;
  body = "{}";
  content_type = some "Application/JSON; charset=utf-8";
  created_at = 7;
}

post_key : request_key defaults (post " k1 ") ≡ some "k1"
unfolding request_key has_method trim to_upper
post_key = refl

request_tests :
    (request_key defaults (record { method = "GET"; header = some "k1" }) ≡ none)
    × (request_key defaults (post "  ") ≡ none)
    × ((arrive defaults 3 (post "k1") (new_store none)).1 ≡ handled "k1")
    × ((arrive defaults 4 (post "k1") (arrive defaults 3 (post "k1") (new_store none)).0).1
        ≡ conflict)
    × ((replay_response (λ b. true) created).body ≡ json_of "{}")
    × ((replay_response (λ b. false) created).body ≡ raw "{}")
unfolding arrive request_key has_method trim to_upper to_lower has_part check_and_reserve
    prune_expired new_store lookup insert contains replay_response
request_tests = (refl, refl, refl, refl, refl, refl)

arrive-finish_example :
    (arrive defaults 90 (post " k1 ") (finish defaults 7 "k1" created (new_store (some 100)))).1
    ≡ (if is_kept (some 100) 7 90 then replayed created else handled "k1")
unfolding new_store
arrive-finish_example =
    arrive-finish defaults 7 90 "k1" created (post " k1 ") (new_store (some 100)) post_key refl

abbrev broken : Record
broken = record created { status = 503 }

abbrev begun : System
begun = record { store = new_store none; running = []; abandoned = [] }

abbrev first_arrived : System
first_arrived = on_arrive defaults 3 (post "k1") begun

first_runs : 0 < runs "k1" first_arrived.running
unfolding arrive request_key has_method trim to_upper check_and_reserve prune_expired new_store
    lookup insert contains
first_runs = omega arith

-- A request with the key k1, its broken connection, and its repetition.
abbrev repeated : System
repeated = on_arrive defaults 9 (post "k1") (on_abort "k1" first_arrived)

abbrev retried : Reach defaults begun repeated
retried =
    next (next (next here (arrives 3 (post "k1") begun)) (aborts "k1" first_arrived first_runs))
      (arrives 9 (post "k1") (on_abort "k1" first_arrived))

-- The broken connection leaves two handlers of one key running.
two_handlers : (runs "k1" repeated.running ≡ 1) × (runs "k1" repeated.abandoned ≡ 1)
unfolding arrive request_key has_method trim to_upper check_and_reserve prune_expired new_store
    lookup insert contains close release erase
two_handlers = (refl, refl)

one_handler_per_key_example :
    (runs "k1" repeated.running ≤ 1)
    × ((contains "k1" repeated.store.in_flight ≡ true) ↔ (0 < runs "k1" repeated.running))
    × (runs "k1" repeated.running + runs "k1" repeated.abandoned ≤ 1 + drops "k1" retried)
one_handler_per_key_example = one_handler_per_key none "k1" retried
