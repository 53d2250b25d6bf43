-- ===== src/ResetLimiter/Rejection.antt =====
-- What the limiter answers to a second request.
use implement_offering_valid.Common.{
  ℕ, ◌-◌, ◌*◌, ◌≤◌, String, ◌≡◌, refl, sym, ◌≢◌, true, false, none, some, List, [], ◌∷◌, arith,
  eq_iff, leb, Dict, lookup, insert, lookup-insert, Option-cases, inl, inr, pos, ◌+ℤ◌,
}
use implement_offering_valid.ResetLimiter.{
  Config, RateLimitResult, Row, normalize_identifier, get_block_expiry, get_request_count,
  record_request, check_rate_limit, window_start,
}

-- No row is blocked.
abbrev pub IsUnblocked : Dict Row → Type 0
IsUnblocked table = (id : String) (r : Row) → lookup id table ≡ some r → r.blocked_until ≡ none

count_at_most_one :
    (c : Config) (now : ℕ) (id : String) (table : Dict Row) → get_request_count c now id table ≤ 1
unfolding get_request_count
count_at_most_one c now id table = ground arith

not_blocked :
    (now : ℕ) (id : String) (table : Dict Row)
    → IsUnblocked table
    → get_block_expiry now id table ≡ none
unfolding get_block_expiry
not_blocked now id table u = elim (Option-cases (lookup id table)) [
  | inl e ↦ rw (get_block_expiry, e) refl
  | inr (r, e) ↦ rw (get_block_expiry, e, u id r e) refl
]

below_limit :
    (c : Config) (now : ℕ) (id : String) (table : Dict Row)
    → 2 ≤ c.max_requests
    → leb c.max_requests (get_request_count c now id table) ≡ false
below_limit c now id table m = ground (arith, count_at_most_one c now id table)

abbrev entry_at : ℕ → Row
entry_at now = record { request_at = now; blocked_until = none }

check_known :
    (c : Config) (now : ℕ) (identifier : String) (table : Dict Row) (r : Row)
    → 2 ≤ c.max_requests
    → IsUnblocked table
    → lookup (normalize_identifier identifier) table ≡ some r
    → check_rate_limit c now identifier table ≡ none
unfolding check_rate_limit record_request
check_known c now identifier table r m u f =
    let id = normalize_identifier identifier in
    rw
      (
        check_rate_limit,
        not_blocked now id table u,
        below_limit c now id table m,
        record_request,
        f,
      )
      refl

check_unknown :
    (c : Config) (now : ℕ) (identifier : String) (table : Dict Row)
    → 2 ≤ c.max_requests
    → IsUnblocked table
    → lookup (normalize_identifier identifier) table ≡ none
    → (result : RateLimitResult) × (check_rate_limit c now identifier table
        ≡ some (insert (normalize_identifier identifier) (entry_at now) table, result))
      × (result.allowed ≡ true)
unfolding check_rate_limit record_request
check_unknown c now identifier table m u f =
    let id = normalize_identifier identifier in
    let count = get_request_count c now id table in
    (
      record {
        allowed = true;
        remaining_requests = c.max_requests - count - 1;
        reset_at = window_start c now +ℤ pos (c.window_minutes * 60_000);
        retry_after = none;
      },
      rw
          (
            check_rate_limit,
            not_blocked now id table u,
            below_limit c now id table m,
            record_request,
            f,
          )
          refl,
      refl,
    )

-- The table after calls for identifiers at given times; a call that throws leaves it.
unfoldable pub after_call : Config → ℕ × String → Dict Row → Dict Row
after_call c (now, identifier) table = elim (check_rate_limit c now identifier table) [
  | none ↦ table
  | some answer ↦ answer.0
]

unfoldable pub after_calls : Config → List (ℕ × String) → Dict Row → Dict Row
after_calls c [] table = table
after_calls c (call ∷ calls) table = after_calls c calls (after_call c call table)

insert-IsUnblocked :
    (now : ℕ) (id : String) (table : Dict Row)
    → IsUnblocked table
    → IsUnblocked (insert id (entry_at now) table)
insert-IsUnblocked now id table u x r h =
    ground (arith, lookup-insert id x (entry_at now) table, u x r)

insert-keeps :
    (now : ℕ) (id : String) (table : Dict Row) (x : String)
    → lookup x table ≢ none
    → lookup x (insert id (entry_at now) table) ≢ none
insert-keeps now id table x h e = ground (arith, lookup-insert id x (entry_at now) table)

-- A call keeps the rows unblocked, and every identifier that has a row keeps one.
call_keeps :
    (c : Config) (now : ℕ) (identifier : String) (table : Dict Row)
    → 2 ≤ c.max_requests
    → IsUnblocked table
    → IsUnblocked (after_call c (now, identifier) table)
      × ((x : String)
          → lookup x table ≢ none
          → lookup x (after_call c (now, identifier) table) ≢ none)
unfolding after_call
call_keeps c now identifier table m u =
    let id = normalize_identifier identifier in
    elim (Option-cases (lookup id table)) [
      | inr (r, f) ↦
          let same : after_call c (now, identifier) table ≡ table =
            rw (after_call, check_known c now identifier table r m u f) refl in
          rw same (u, λ x h. h)
      | inl f ↦
          let grown : after_call c (now, identifier) table ≡ insert id (entry_at now) table =
            rw (after_call, (check_unknown c now identifier table m u f).1) refl in
          rw grown (insert-IsUnblocked now id table u, insert-keeps now id table)
    ]

present_after :
    (c : Config) (now : ℕ) (identifier : String) (table : Dict Row)
    → 2 ≤ c.max_requests
    → IsUnblocked table
    → lookup (normalize_identifier identifier) (after_call c (now, identifier) table) ≢ none
unfolding after_call
present_after c now identifier table m u =
    let id = normalize_identifier identifier in
    elim (Option-cases (lookup id table)) [
      | inr (r, f) ↦ λ e. absurd ((call_keeps c now identifier table m u).1 id (λ g. cc) e)
      | inl f ↦
          let grown : after_call c (now, identifier) table ≡ insert id (entry_at now) table =
            rw (after_call, (check_unknown c now identifier table m u f).1) refl in
          λ e. ground (arith, grown, lookup-insert id id (entry_at now) table, eq_iff id id)
    ]

calls_keep :
    (c : Config) (calls : List (ℕ × String)) (table : Dict Row)
    → 2 ≤ c.max_requests
    → IsUnblocked table
    → IsUnblocked (after_calls c calls table)
      × ((x : String) → lookup x table ≢ none → lookup x (after_calls c calls table) ≢ none)
unfolding after_calls
calls_keep c [] table m u = (u, λ x h. h)
calls_keep c ((now, identifier) ∷ calls) table m u =
    let one = call_keeps c now identifier table m u in
    let rest = calls_keep c calls (after_call c (now, identifier) table) m one.0 in
    (rest.0, λ x h. rest.1 x (one.1 x h))

pub empty-IsUnblocked : IsUnblocked []
unfolding lookup
empty-IsUnblocked id r h = absurd (cc)

-- Where two requests or more are allowed, the limit is never applied: after any calls, for any
-- identifiers and at any times, starting from an empty table, a call that gives a result allows the
-- request.
pub result_allows :
    (c : Config) (calls : List (ℕ × String)) (now : ℕ) (identifier : String)
    (answer : Dict Row × RateLimitResult)
    → 2 ≤ c.max_requests
    → check_rate_limit c now identifier (after_calls c calls []) ≡ some answer
    → answer.1.allowed ≡ true
result_allows c calls now identifier answer m h =
    let table = after_calls c calls [] in
    let u = (calls_keep c calls [] m empty-IsUnblocked).0 in
    elim (Option-cases (lookup (normalize_identifier identifier) table)) [
      | inr (r, f) ↦ let thrown = check_known c now identifier table r m u f in absurd (cc)
      | inl f ↦
          let answered = check_unknown c now identifier table m u f in
          let same : answered.0 ≡ answer.1 = ground (arith, answered.1) in rw (sym same) answered.2
    ]

-- Where two requests or more are allowed, only the first request for an identifier is answered: once
-- one is answered over a table without blocks, every later request for the same identifier throws,
-- whatever the time and the calls between them.
pub second_request_throws :
    (c : Config) (now later : ℕ) (first second : String) (calls : List (ℕ × String))
    (table : Dict Row) (answer : Dict Row × RateLimitResult)
    → 2 ≤ c.max_requests
    → IsUnblocked table
    → check_rate_limit c now first table ≡ some answer
    → normalize_identifier second ≡ normalize_identifier first
    → check_rate_limit c later second (after_calls c calls answer.0) ≡ none
unfolding after_call
second_request_throws c now later first second calls table answer m u h same =
    let id = normalize_identifier first in
    let one = call_keeps c now first table m u in
    let reached : after_call c (now, first) table ≡ answer.0 = rw (after_call, h) refl in
    let present = present_after c now first table m u in
    let rest = calls_keep c calls (after_call c (now, first) table) m one.0 in
    let known = rest.1 id present in
    rw (sym reached)
      (elim (Option-cases (lookup id (after_calls c calls (after_call c (now, first) table)))) [
        | inl e ↦ absurd (known e)
        | inr (r, e) ↦
            check_known c later second (after_calls c calls (after_call c (now, first) table)) r m
              rest.0 (rw same e)
      ])
