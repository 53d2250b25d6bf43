-- ===== src/WebhookSignature/Freshness.antt =====
-- The replay protection: which timestamps pass.
use implement_offering_valid.Common.{
  ℕ, ◌+◌, ◌<◌, String, ◌≡◌, true, false, some, arith, Dict, is_missing, parse_int, ℤ, pos, negsuc,
  pos_part, neg_part, ◌-ℤ◌, ◌+ℤ◌, ◌≤ℤ◌, Option-cases, inl, inr,
}
use implement_offering_valid.WebhookSignature.{
  HeaderValue, is_valid_date, is_outside, accepted, timestamp_header, or_blank, check_timestamp,
}

inside_window :
    (now max_age : ℕ) (t : ℤ)
    → is_valid_date t ≡ true
    → is_outside now max_age t ≡ false
    → (t ≤ℤ pos now) × (pos now ≤ℤ pos max_age +ℤ t)
unfolding is_outside ◌-ℤ◌ ◌+ℤ◌
inside_window now max_age t h e = ground arith

out_of_range : (t : ℤ) → 8_640_000_000_000_000 < pos_part t + neg_part t → is_valid_date t ≡ false
out_of_range (pos n) h = ground arith
out_of_range (negsuc n) h = ground arith

-- Where a timestamp is required and one that JavaScript can represent as a date is accepted, it is the
-- one that the header spells, it is not in the future, and it is at most `maxAgeMs` old.
pub accepted_timestamp_is_fresh :
    (now max_age : ℕ) (t : ℤ) (headers : Dict HeaderValue)
    → check_timestamp true max_age now headers ≡ accepted (some t)
    → is_valid_date t ≡ true
    → (parse_int (or_blank (timestamp_header headers)) ≡ some t)
      × (t ≤ℤ pos now)
      × (pos now ≤ℤ pos max_age +ℤ t)
unfolding check_timestamp
accepted_timestamp_is_fresh now max_age t headers h v =
    elim (Option-cases (parse_int (or_blank (timestamp_header headers)))) [
      | inl e ↦ absurd (ground arith)
      | inr (u, e) ↦
          let same : u ≡ t = ground arith in
          let inside : is_outside now max_age t ≡ false = ground arith in
          let window = inside_window now max_age t v inside in (ground arith, window.0, window.1)
    ]

-- A timestamp beyond the range of dates passes the check, whatever the clock and the age allowed:
-- the age is not a number then, and both comparisons fail.
pub huge_timestamp_passes :
    (now max_age : ℕ) (value : String) (t : ℤ) (headers : Dict HeaderValue)
    → timestamp_header headers ≡ some value
    → is_missing (some value) ≡ false
    → parse_int value ≡ some t
    → 8_640_000_000_000_000 < pos_part t + neg_part t
    → check_timestamp true max_age now headers ≡ accepted (some t)
unfolding check_timestamp is_outside
huge_timestamp_passes now max_age value t headers h m p big =
    let invalid : is_valid_date t ≡ false = out_of_range t big in ground (arith, h, m, p, invalid)
