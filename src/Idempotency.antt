-- ===== src/Idempotency.antt =====
-- Idempotency keys (src/middleware/idempotency.ts): the in-memory store, and the middleware as the
-- events of a request: its arrival, the `finish` and the `close` of its response.
-- `JSON.parse` enters as the test `parses`; clock readings are arguments.
pub mod Exclusion
pub mod Replay
pub mod Bodies
mod Tests
use implement_offering_valid.Common.{
  ℕ, ◌+◌, String, Bool, true, false, Option, none, some, List, [], ◌∷◌, ltb, leb, ◌==◌,
  if◌then◌else◌, str_eq, is_missing, is_empty, Dict, lookup, insert, erase, contains, trim,
  to_upper, to_lower, has_part, ◌&&◌,
}

pub record Record : Type 0 where
  pub status : ℕ
  pub body : String
  pub content_type : Option String
  pub created_at : ℕ

pub record Entry : Type 0 where
  pub kept : Record
  pub expires_at : Option ℕ

-- `in_flight` is a set: only its keys count.
pub record Store : Type 0 where
  pub records : Dict Entry
  pub in_flight : Dict (Unit {0})
  pub ttl_ms : Option ℕ

pub data CheckResult : Type 0 where
  new inflight : CheckResult
  cached : Record → CheckResult

unfoldable pub new_store : Option ℕ → Store
new_store ttl = record { records = []; in_flight = []; ttl_ms = ttl }

-- A missing expiry and the expiry 0 are both falsy: such an entry stays.
abbrev pub has_expired : ℕ → Entry → Bool
has_expired now e = elim (e.expires_at) [
  | none ↦ false
  | some t ↦ if t == 0 then false else leb t now
]

unfoldable pub prune_expired : ℕ → String → Store → Store
prune_expired now key s = elim (lookup key s.records) [
  | none ↦ s
  | some e ↦ if has_expired now e then record s { records = erase key s.records } else s
]

unfoldable pub check_and_reserve : ℕ → String → Store → Store × CheckResult
check_and_reserve now key s =
    let pruned = prune_expired now key s in
    elim (lookup key pruned.records) [
      | some e ↦ (pruned, cached e.kept)
      | none ↦
          if contains key pruned.in_flight
          then (pruned, inflight)
          else (record pruned { in_flight = insert key tt pruned.in_flight }, new)
    ]

-- `this.ttlMs ? Date.now() + this.ttlMs : undefined`
abbrev expiry : ℕ → Option ℕ → Option ℕ
expiry now none = none
expiry now (some ttl) = if ttl == 0 then none else some (now + ttl)

unfoldable pub save : ℕ → String → Record → Store → Store
save now key r s = record s {
  in_flight = erase key s.in_flight;
  records = insert key (record { kept = r; expires_at = expiry now s.ttl_ms }) s.records;
}

unfoldable pub release : String → Store → Store
release key s = record s { in_flight = erase key s.in_flight }

-- `methods` as given, before `toUpperCase`; the default of `shouldStoreResponse` is `status < 500`.
pub record Options : Type 0 where
  pub methods : List String
  pub should_store : ℕ → Bool

pub record Request : Type 0 where
  pub method : String
  pub header : Option String

unfoldable pub has_method : List String → String → Bool
has_method [] m = false
has_method (x ∷ xs) m = if str_eq (to_upper x) m then true else has_method xs m

-- The key of a request that the middleware guards; `none` where it calls `next()` at once.
unfoldable pub request_key : Options → Request → Option String
request_key o req =
    if has_method o.methods (to_upper req.method)
    then elim (req.header) [
      | none ↦ none
      | some h ↦ if is_empty (trim h) then none else some (trim h)
    ]
    else none

-- What a repeated request is answered with: parsed JSON, or the raw body.
pub data Body : Type 0 where
  json_of : String → Body
  json_null : Body
  raw : String → Body

pub record Reply : Type 0 where
  pub status : ℕ
  pub content_type : Option String
  pub body : Body

abbrev pub or_blank : Option String → String
or_blank none = ""
or_blank (some s) = s

unfoldable pub replay_response : (String → Bool) → Record → Reply
replay_response parses r = record {
  status = r.status;
  content_type = if is_missing r.content_type then none else r.content_type;
  body =
      if has_part "application/json" (to_lower (or_blank r.content_type))
      then (if is_empty r.body
          then json_null
          else if parses r.body
          then json_of r.body
          else raw r.body)
      else raw r.body;
}

pub data Verdict : Type 0 where
  -- `next()` without a reservation
  bypassed : Verdict
  -- `next()` with the key reserved
  handled : String → Verdict
  replayed : Record → Verdict
  -- 409
  conflict : Verdict

abbrev verdict_of : String → CheckResult → Verdict
verdict_of key new = handled key
verdict_of key inflight = conflict
verdict_of key (cached r) = replayed r

unfoldable pub arrive : Options → ℕ → Request → Store → Store × Verdict
arrive o now req s = elim (request_key o req) [
  | none ↦ (s, bypassed)
  | some key ↦ let (s', r) = check_and_reserve now key s in (s', verdict_of key r)
]

-- The response's `finish`: it is kept, or the key is freed.
unfoldable pub finish : Options → ℕ → String → Record → Store → Store
unfolding save release
finish o now key r s = if o.should_store r.status then save now key r s else release key s

-- The response's `close`, with whether `finish` came before it.
unfoldable pub close : Bool → String → Store → Store
unfolding release
close true key s = s
close false key s = release key s
