-- ===== src/Slots/Parse/Range.antt =====
-- The range of what `parse_hhmm` returns.
use room_booking.Base.{
  ℕ, ℤ, pos, negsuc, GoString, List, [], ◌∷◌, ◌≡◌, ◌≤◌, arith, split_on, atoi, Option, none, some,
}
use room_booking.Domain.Errors.{ok, ◌>>=◌}
use room_booking.Slots.Parse.{parse_hhmm, in_range, or_wrap, hhmm_parts}

in_range_bounds : (a b : ℤ) {h m : ℕ} → in_range a b ≡ ok (h, m) → (h ≤ 23) × (m ≤ 59)
in_range_bounds (pos a) (pos b) e = ground arith
in_range_bounds (pos a) (negsuc b) e = ground arith
in_range_bounds (negsuc a) b e = ground arith

two_parts_bounds :
    (x y : Option ℤ) {h m : ℕ}
    → (do hour ← or_wrap "parse hour" x; minute ← or_wrap "parse minute" y; in_range hour minute)
      ≡ ok (h, m)
    → (h ≤ 23) × (m ≤ 59)
two_parts_bounds none y e = ground arith
two_parts_bounds (some a) none e = ground arith
two_parts_bounds (some a) (some b) e = in_range_bounds a b e

hhmm_parts_bounds :
    (parts : List GoString) {h m : ℕ} → hhmm_parts parts ≡ ok (h, m) → (h ≤ 23) × (m ≤ 59)
hhmm_parts_bounds [] e = ground arith
hhmm_parts_bounds (a ∷ []) e = ground arith
hhmm_parts_bounds (a ∷ b ∷ []) e = two_parts_bounds (atoi a) (atoi b) e
hhmm_parts_bounds (a ∷ b ∷ c ∷ rest) e = ground arith

pub parse_hhmm_bounds : (s : GoString) {h m : ℕ} → parse_hhmm s ≡ ok (h, m) → (h ≤ 23) × (m ≤ 59)
unfolding parse_hhmm
parse_hhmm_bounds s e = hhmm_parts_bounds (split_on b':' s) e
