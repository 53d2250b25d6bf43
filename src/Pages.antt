-- ===== src/Pages.antt =====
-- Pagination (src/lib/pagination.ts): the parameters of a page, and the page as it is answered.
pub mod Bounds
mod Tests
use implement_offering_valid.Common.{
  ℕ, ◌+◌, String, Bool, true, false, Option, none, some, List, ltb, if◌then◌else◌, is_missing,
  parse_int, ℤ, pos, pos_part, length, min, max,
}

pub record PaginationParams : Type 0 where
  pub limit : ℕ
  pub offset : Option ℕ
  pub cursor : Option String

abbrev default_limit : ℕ
default_limit = 20

abbrev pub max_limit : ℕ
max_limit = 100

-- `parseInt` of a parameter that may be absent.
abbrev parsed : Option String → Option ℤ
parsed none = none
parsed (some s) = parse_int s

-- `Math.min(Math.max(1, n), MAX_LIMIT)`
abbrev limit_of : Option ℤ → ℕ
limit_of none = default_limit
limit_of (some n) = min (max 1 (pos_part n)) max_limit

-- `Math.max(0, n)`
abbrev offset_of : Option ℤ → ℕ
offset_of none = 0
offset_of (some n) = pos_part n

unfoldable pub parse_pagination : (limit offset cursor : Option String) → PaginationParams
parse_pagination limit offset cursor = record {
  limit = limit_of (parsed limit);
  offset = some (offset_of (parsed offset));
  cursor = if is_missing cursor then none else cursor;
}

pub record PaginatedResponse (A : Type 0) : Type 0 where
  pub data_of : List A
  pub total : ℕ
  pub limit : ℕ
  pub offset : ℕ
  pub next_cursor : Option String
  pub has_more : Bool

abbrev or_zero : Option ℕ → ℕ
or_zero none = 0
or_zero (some n) = n

unfoldable pub format_page :
    {A : Type 0} → List A → ℕ → PaginationParams → Option String → PaginatedResponse A
format_page page total params next_cursor = record {
  data_of = page;
  total = total;
  limit = params.limit;
  offset = or_zero params.offset;
  next_cursor = next_cursor;
  has_more =
      if is_missing next_cursor then ltb (or_zero params.offset + length page) total else true;
}
