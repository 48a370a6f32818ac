-- ===== src/Slots/Days.antt =====
-- `weekdayToISO`, `normalizeDays` and `NormalizeAndValidateDays` of
-- internal/service/slot_generator.go. Go ranges over a map in any order: the order is an argument.
pub mod Order
pub mod Laws
use room_booking.Base.{
  ℕ, ℤ, pos, ltb_ℤ, ◌==ℤ◌, ◌==◌, List, [], ◌∷◌, Bool, false, ◌||◌, any, if◌then◌else◌,
}
use room_booking.Domain.Errors.{Error, domain, invalid_request, Result, ok, err, ◌>>=◌}

unfoldable pub weekday_to_iso : ℕ → ℤ
weekday_to_iso wd =
    if wd == 1
    then pos 1
    else if wd == 2
    then pos 2
    else if wd == 3
    then pos 3
    else if wd == 4
    then pos 4
    else if wd == 5
    then pos 5
    else if wd == 6
    then pos 6
    else if wd == 0
    then pos 7
    else pos 0

-- The map from a day to whether it is allowed.
unfoldable pub normalize_days : List ℤ → ℤ → Bool
normalize_days [] d = false
normalize_days (x ∷ xs) d = (x ==ℤ d) || normalize_days xs d

-- `set[d] = struct{}{}` on a set without duplicates.
abbrev insert_day : ℤ → List ℤ → List ℤ
insert_day d set = if any (λ x. x ==ℤ d) set then set else d ∷ set

-- The loop that checks the days and fills the set.
unfoldable pub collect_days : List ℤ → List ℤ → Result (List ℤ)
collect_days set [] = ok set
collect_days set (d ∷ ds) =
    let rest = collect_days (insert_day d set) ds in
    if ltb_ℤ d (pos 1) || ltb_ℤ (pos 7) d then err (domain invalid_request) else rest

-- `sort.Slice` by `<`, on different values.
unfoldable pub insert_sorted : ℤ → List ℤ → List ℤ
insert_sorted d [] = d ∷ []
insert_sorted d (x ∷ xs) = if ltb_ℤ d x then d ∷ x ∷ xs else x ∷ insert_sorted d xs

unfoldable pub sort_days : List ℤ → List ℤ
unfolding insert_sorted
sort_days [] = []
sort_days (x ∷ xs) = insert_sorted x (sort_days xs)

abbrev nonempty_days : List ℤ → Result (List ℤ)
nonempty_days [] = err (domain invalid_request)
nonempty_days (x ∷ xs) = ok (x ∷ xs)

unfoldable pub normalize_and_validate_days : (List ℤ → List ℤ) → List ℤ → Result (List ℤ)
normalize_and_validate_days order days = do
  set ← collect_days [] days
  nonempty_days (sort_days (order set))
