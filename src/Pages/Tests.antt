-- ===== src/Pages/Tests.antt =====
-- Pages of three rows.
use implement_offering_valid.Common.{
  ℕ, ◌+◌, ◌≤◌, ◌≡◌, refl, none, some, List, [], ◌∷◌, length, parse_int, true,
}
use implement_offering_valid.Pages.{parse_pagination, max_limit, format_page}
use implement_offering_valid.Pages.Bounds.{Walk, pages_cover}

abbrev rows : List ℕ
rows = 4 ∷ 5 ∷ 6 ∷ []

limit_is_bounded : (parse_pagination (some "500") (some "-3") (some "")).limit ≡ 100
unfolding parse_pagination parse_int
limit_is_bounded = refl

more_to_come :
    (format_page rows 9 (record { limit = 3; offset = some 5; cursor = none }) none).has_more ≡ true
unfolding format_page
more_to_come = refl

pages_cover_example :
    let p = parse_pagination (some "2") none none in
    (1 ≤ p.limit)
    × (p.limit ≤ max_limit)
    × ((n : ℕ) × (n ≤ length rows + 1) × Walk p.limit rows 0 n rows)
pages_cover_example = pages_cover (some "2") none none rows
