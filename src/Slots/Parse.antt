-- ===== src/Slots/Parse.antt =====
-- `parseHHMM` of internal/service/slot_generator.go.
pub mod Range
mod Tests
use room_booking.Base.{
  ℕ, ℤ, pos, negsuc, String, GoString, List, [], ◌∷◌, Option, none, some, Bool, ◌||◌, ltb,
  if◌then◌else◌, split_on, atoi,
}
use room_booking.Domain.Errors.{Error, plain, wrap, Result, ok, err, ◌>>=◌}

-- The result of `strconv.Atoi`, with its error wrapped.
abbrev or_wrap : String → Option ℤ → Result ℤ
or_wrap message none = err (wrap message (plain "strconv.Atoi: invalid number"))
or_wrap message (some n) = ok n

-- The test of the ranges.
abbrev in_range : ℤ → ℤ → Result (ℕ × ℕ)
in_range (pos h) (pos m) =
    if ltb 23 h || ltb 59 m then err (plain "time is out of range") else ok (h, m)
in_range _ _ = err (plain "time is out of range")

-- The hour and the minute of the two parts.
abbrev hhmm_parts : List GoString → Result (ℕ × ℕ)
hhmm_parts (h ∷ m ∷ []) = do
  hour ← or_wrap "parse hour" (atoi h)
  minute ← or_wrap "parse minute" (atoi m)
  in_range hour minute
hhmm_parts _ = err (plain "invalid time format")

unfoldable pub parse_hhmm : GoString → Result (ℕ × ℕ)
parse_hhmm value = hhmm_parts (split_on b':' value)
