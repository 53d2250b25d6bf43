-- ===== src/Idempotency/Replay.antt =====
-- Later requests with the key of an earlier one (src/middleware/idempotency.ts).
use implement_offering_valid.Common.{
  ℕ, ◌+◌, String, ◌≡◌, refl, Bool, true, false, Option, none, some, arith, eq_iff, if◌then◌else◌,
  ltb, ◌==◌, lookup, contains, lookup-insert, lookup-erase, Bool-cases, inl, inr, Dict, erase,
}
use implement_offering_valid.Idempotency.{
  Record, Entry, Store, new, inflight, cached, has_expired, expiry, verdict_of, prune_expired,
  check_and_reserve, save, release, Options, Request, request_key, handled, replayed, arrive,
  finish,
}

-- A time at which a response kept at `t` may still be replayed.
abbrev pub is_kept : Option ℕ → ℕ → ℕ → Bool
is_kept none t now = true
is_kept (some ttl) t now = if ttl == 0 then true else ltb now (t + ttl)

check_found :
    (now : ℕ) (key : String) {e : Entry} (s : Store)
    → lookup key s.records ≡ some e
    → (check_and_reserve now key s).1 ≡ (
        if has_expired now e
        then (if contains key s.in_flight then inflight else new)
        else cached e.kept)
unfolding check_and_reserve prune_expired
check_found now key {e} s h = elim (Bool-cases (has_expired now e)) [
  | inl gone ↦ ground (arith, h, gone, lookup-erase key key s.records, eq_iff key key)
  | inr still ↦ ground (arith, h, still)
]

check_missing :
    (now : ℕ) (key : String) (s : Store)
    → lookup key s.records ≡ none
    → (check_and_reserve now key s).1 ≡ (if contains key s.in_flight then inflight else new)
unfolding check_and_reserve prune_expired
check_missing now key s h = ground (arith, h)

arrive_keyed :
    (o : Options) (now : ℕ) (key : String) (req : Request) (s : Store)
    → request_key o req ≡ some key
    → (arrive o now req s).1 ≡ verdict_of key (check_and_reserve now key s).1
unfolding arrive
arrive_keyed o now key req s h = rw (h, arrive) refl

not_in_flight_of_erase : (key : String) (m : Dict (Unit {0})) → contains key (erase key m) ≡ false
unfolding contains
not_in_flight_of_erase key m = ground (arith, lookup-erase key key m, eq_iff key key)

-- After a response that is worth keeping has finished at `t`, a request with its key gets that very
-- record until `t` plus the time to live, and is not handled; from then on the first request with
-- the key is handled anew. With no time to live, or 0, the record is replayed for ever.
pub arrive-finish :
    (o : Options) (t now : ℕ) (key : String) (r : Record) (req : Request) (s : Store)
    → request_key o req ≡ some key
    → o.should_store r.status ≡ true
    → (arrive o now req (finish o t key r s)).1
      ≡ (if is_kept s.ttl_ms t now then replayed r else handled key)
unfolding finish
arrive-finish o t now key r req s k st =
    let e : Entry = record { kept = r; expires_at = expiry t s.ttl_ms } in
    let s' = save t key r s in
    ground (
      arith,
      st,
      arrive_keyed o now key req s' k,
      check_found now key {e = e} s',
      lookup-insert key key e s.records,
      eq_iff key key,
      not_in_flight_of_erase key s.in_flight,
    )

-- A response that is not worth keeping frees its key: the next request with the key is handled,
-- unless an earlier response is still kept under it.
pub arrive-finish_dropped :
    (o : Options) (t now : ℕ) (key : String) (r : Record) (req : Request) (s : Store)
    → request_key o req ≡ some key
    → o.should_store r.status ≡ false
    → lookup key s.records ≡ none
    → (arrive o now req (finish o t key r s)).1 ≡ handled key
unfolding finish
arrive-finish_dropped o t now key r req s k st e =
    let s' = release key s in
    ground (
      arith,
      st,
      arrive_keyed o now key req s' k,
      check_missing now key s' e,
      not_in_flight_of_erase key s.in_flight,
    )
