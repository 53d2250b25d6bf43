-- ===== src/Pages/Bounds.antt =====
-- The walk over the pages of a list.
use mathlib.Core.Path.{subst}
use mathlib.Core.List.{append-nil}
use implement_offering_valid.Common.{
  ℕ, zero, suc, ◌+◌, ◌≤◌, ◌<◌, String, ◌≡◌, sym, ap, ◌∙◌, true, false, Option, none, some, List,
  ◌++◌, arith, ltb, length, skip, first, skip-add, length-skip, length-first, first-skip, skip_all,
  Bool-cases, inl, inr,
}
use implement_offering_valid.Pages.{parse_pagination, max_limit, PaginatedResponse, format_page}

limit_bounds :
    (limit offset cursor : Option String)
    → let p = parse_pagination limit offset cursor in (1 ≤ p.limit) × (p.limit ≤ max_limit)
unfolding parse_pagination
limit_bounds limit offset cursor = (ground arith, ground arith)

-- `page_at limit offset rows`: the answer with the rows that a query with LIMIT and OFFSET gives.
abbrev pub page_at : {A : Type 0} → ℕ → ℕ → List A → PaginatedResponse A
page_at limit offset rows =
    format_page (first limit (skip offset rows)) (length rows)
      (record { limit = limit; offset = some offset; cursor = none }) none

-- `Walk limit rows offset n xs`: a client that asks for the page at `offset`, and for the page after it as
-- long as `hasMore` says so, stops after `n` pages, and has the rows `xs` then.
pub data Walk {A : Type 0} (limit : ℕ) (rows : List A) : ℕ → ℕ → List A → Type 0 where
  last :
      {offset : ℕ}
      → (page_at limit offset rows).has_more ≡ false
      → Walk limit rows offset 1 (page_at limit offset rows).data_of
  more :
      {offset n : ℕ} {xs : List A}
      → (page_at limit offset rows).has_more ≡ true
      → Walk limit rows (offset + length (page_at limit offset rows).data_of) n xs
      → Walk limit rows offset (suc n) ((page_at limit offset rows).data_of ++ xs)

whole : {A : Type 0} → (n : ℕ) (xs : List A) → length xs ≤ length (first n xs) → first n xs ≡ xs
whole n xs h =
    sym (append-nil (first n xs))
    ∙ ap (λ l. first n xs ++ l) (sym (skip_all (length (first n xs)) xs h))
    ∙ first-skip n xs

-- From an offset that is less than `bound` rows before the end, the walk takes at most `bound` pages.
covers_from :
    {A : Type 0}
    → (bound limit offset : ℕ) (rows : List A) → 1 ≤ limit
    → length rows < offset + bound
    → offset ≤ length rows
    → (n : ℕ) × (n ≤ bound) × Walk limit rows offset n (skip offset rows)
unfolding format_page
covers_from zero limit offset rows l h within = absurd (omega (arith, h, within))
covers_from (suc bound) limit offset rows l h within =
    let page = first limit (skip offset rows) in
    let size = length-first limit (skip offset rows) in
    let left = length-skip offset rows in
    elim (Bool-cases (ltb (offset + length page) (length rows))) [
      | inl again ↦
          let (n, few, rest) =
            covers_from bound limit (offset + length page) rows l (ground arith) (ground arith) in
          (
            suc n,
            omega (arith, few),
            subst (Walk limit rows offset (suc n))
                (ap (λ r. page ++ r) (skip-add offset (length page) rows)
                  ∙ first-skip limit (skip offset rows))
                (more again rest),
          )
      | inr stop ↦ (
        1,
        omega arith,
        subst (Walk limit rows offset 1)
            (whole limit (skip offset rows) (ground (arith, size, left))) (last stop),
      )
    ]

-- Whatever the parameters say, the limit of a page is at least one row and at most a hundred; and a
-- client that starts at the first page, and asks for the next as long as it is told that there is
-- more, stops, after at most as many pages as there are rows and one, and has every row once and in
-- order.
pub pages_cover :
    {A : Type 0}
    → (limit offset cursor : Option String) (rows : List A)
    → let p = parse_pagination limit offset cursor in
      (1 ≤ p.limit)
      × (p.limit ≤ max_limit)
      × ((n : ℕ) × (n ≤ length rows + 1) × Walk p.limit rows 0 n rows)
unfolding skip
pages_cover limit offset cursor rows =
    let p = parse_pagination limit offset cursor in
    let (low, high) = limit_bounds limit offset cursor in
    (low, high, covers_from (length rows + 1) p.limit 0 rows low (omega arith) (omega arith))
