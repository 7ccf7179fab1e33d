-- ===== src/Item/Dates.antt =====
-- The order of items by date (`sw_item_compare_date_older` and `_newer` of libsocialweb/sw-item.c).
use libsocialweb_flickr_oaut.Item.{put, cache_date, compare_date_older, Item}
use libsocialweb_flickr_oaut.Prelude.{
  none, some, false, Option, ◌<◌, ◌↔◌, arith, ◌≤◌, ◌≡◌, ◌^◌, ℕ, String,
}
use libsocialweb_flickr_oaut.Prelude.Int.{is_zero_ℤ, ◌<ℤ◌, ℤ, ◌-ℤ◌, to_int32, pos, negsuc}

-- An integer that fits 32 bits survives the conversion.
to_int32_fits : (a : ℤ) → a <ℤ pos (2 ^ 31) → negsuc (2 ^ 31) <ℤ a → to_int32 a ≡ a
unfolding to_int32
to_int32_fits (pos n) h k = ground arith
to_int32_fits (negsuc n) h k = ground arith

-- A difference from 2^31 up to 2^32 becomes negative.
to_int32_wraps : (n : ℕ) → 2 ^ 31 ≤ n → n < 2 ^ 32 → to_int32 (pos n) <ℤ pos 0
unfolding to_int32
to_int32_wraps n h k = ground arith

sign_of_sub :
    (a b : ℤ)
    → ((a -ℤ b <ℤ pos 0) ↔ (a <ℤ b)) × ((a -ℤ b ≡ pos 0) ↔ (a ≡ b)) × ((pos 0 <ℤ a -ℤ b) ↔ (b <ℤ a))
unfolding ◌-ℤ◌
sign_of_sub (pos m) (pos n) = (
  (λ h. ground arith, λ h. ground arith),
  (λ h. ground arith, λ h. ground arith),
  (λ h. ground arith, λ h. ground arith),
)
sign_of_sub (pos m) (negsuc n) = (
  (λ h. ground arith, λ h. ground arith),
  (λ h. ground arith, λ h. ground arith),
  (λ h. ground arith, λ h. ground arith),
)
sign_of_sub (negsuc m) (pos n) = (
  (λ h. ground arith, λ h. ground arith),
  (λ h. ground arith, λ h. ground arith),
  (λ h. ground arith, λ h. ground arith),
)
sign_of_sub (negsuc m) (negsuc n) = (
  (λ h. ground arith, λ h. ground arith),
  (λ h. ground arith, λ h. ground arith),
  (λ h. ground arith, λ h. ground arith),
)

module _ (time_of_string : String → ℤ) where
  abbrev date : Item → ℤ
  date item = (cache_date time_of_string item).cached_date

  -- Two dates less than 2^31 seconds apart.
  abbrev pub IsNear : Item → Item → Type 0
  IsNear a b = (date a -ℤ date b <ℤ pos (2 ^ 31)) × (negsuc (2 ^ 31) <ℤ date a -ℤ date b)

  -- Where the dates of two items are less than 2^31 seconds apart, the comparison is negative,
  -- zero or positive exactly as the first is earlier, of the same second or later.
  pub compare_date_older_lem :
      (a b : Item)
      → IsNear a b
      → ((compare_date_older time_of_string a b <ℤ pos 0) ↔ (date a <ℤ date b))
        × ((compare_date_older time_of_string a b ≡ pos 0) ↔ (date a ≡ date b))
        × ((pos 0 <ℤ compare_date_older time_of_string a b) ↔ (date b <ℤ date a))
  unfolding compare_date_older
  compare_date_older_lem a b near =
      rw (to_int32_fits (date a -ℤ date b) near.0 near.1) (sign_of_sub (date a) (date b))

  -- Where the first date is at least 2^31 and less than 2^32 seconds later than the second, the
  -- comparison is negative all the same, as if it were earlier.
  pub compare_date_older_wraps :
      (a b : Item) (n : ℕ)
      → date a -ℤ date b ≡ pos n
      → 2 ^ 31 ≤ n
      → n < 2 ^ 32
      → compare_date_older time_of_string a b <ℤ pos 0
  unfolding compare_date_older
  compare_date_older_wraps a b n e h k = rw e (to_int32_wraps n h k)

  -- Once an item's date is parsed, to something other than zero, a later change of its "date" does
  -- not reach the comparisons.
  pub cache_date-put :
      (now : ℤ) (value : Option String) (item : Item)
      → is_zero_ℤ (date item) ≡ false
      → date (put now "date" value (cache_date time_of_string item)).0 ≡ date item
  unfolding cache_date put
  cache_date-put now none item h = ground arith
  cache_date-put now (some v) item h = ground arith
