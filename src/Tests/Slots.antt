-- ===== src/Tests/Slots.antt =====
-- Instances of the theorems on days and slots.
use room_booking.Base.{
  ℤ, pos, List, [], ◌∷◌, codes, split_on, atoi, ◌≡◌, ◌↔◌, refl, arith, ◌+◌, ◌⊎◌, any, All, true,
  false,
}
use room_booking.Domain.Time.{date, civil_day}
use room_booking.Domain.Entities.{Slot, Schedule}
use room_booking.Domain.Errors.{ok, err, domain, invalid_request}
use room_booking.Slots.Parse.{parse_hhmm}
use room_booking.Slots.Days.{
  normalize_days, weekday_to_iso, normalize_and_validate_days, collect_days, sort_days,
  insert_sorted,
}
use room_booking.Slots.Days.Order.{Ascending}
use room_booking.Slots.Days.Laws.{
  IsOrder, out_of_range, normalize_and_validate_days_sound, normalize_and_validate_days_fails,
  normalize_and_validate_days_stable,
}
use room_booking.Slots.Generator.{
  slots_from, generate_slots_for_date, is_start_at_within_schedule, truncate_to_day_utc,
}
use room_booking.Slots.Generator.Loop.{Offers, Tiles, slots_from-Tiles, slots_from_enough}
use room_booking.Slots.Generator.Agreement.{Offers-iff}
use room_booking.Storage.ScheduleRepository.{trim_seconds, time_text}
use room_booking.Storage.ScheduleRepository.RoundTrip.{parse_hhmm-trim_seconds}

abbrev in_order : List ℤ → List ℤ
in_order set = set

in_order-IsOrder : IsOrder in_order
in_order-IsOrder set d = refl

abbrev given_days : List ℤ
given_days = pos 3 ∷ pos 1 ∷ pos 3 ∷ []

abbrev wrong_days : List ℤ
wrong_days = pos 3 ∷ pos 8 ∷ []

given_days_run : normalize_and_validate_days in_order given_days ≡ ok (pos 1 ∷ pos 3 ∷ [])
unfolding normalize_and_validate_days collect_days sort_days insert_sorted
given_days_run = refl

wrong_days_run : normalize_and_validate_days in_order wrong_days ≡ err (domain invalid_request)
unfolding normalize_and_validate_days collect_days sort_days insert_sorted
wrong_days_run = refl

normalize_and_validate_days_sound_example :
    Ascending (pos 1 ∷ pos 3 ∷ [])
    × All (λ d. out_of_range d ≡ false) (pos 1 ∷ pos 3 ∷ [])
    × ((d : ℤ) → normalize_days (pos 1 ∷ pos 3 ∷ []) d ≡ normalize_days given_days d)
normalize_and_validate_days_sound_example =
    normalize_and_validate_days_sound in_order given_days in_order-IsOrder given_days_run

normalize_and_validate_days_fails_example :
    (normalize_and_validate_days in_order wrong_days ≡ err (domain invalid_request))
    ↔ ((wrong_days ≡ []) ⊎ (any out_of_range wrong_days ≡ true))
normalize_and_validate_days_fails_example =
    normalize_and_validate_days_fails in_order wrong_days in_order-IsOrder

-- Another order: the first two days of the map change places.
abbrev swapped : List ℤ → List ℤ
swapped (a ∷ b ∷ set) = b ∷ a ∷ set
swapped set = set

swapped-IsOrder : IsOrder swapped
swapped-IsOrder [] d = refl
swapped-IsOrder (a ∷ []) d = refl
swapped-IsOrder (a ∷ b ∷ set) d = omega arith

normalize_and_validate_days_stable_example :
    normalize_and_validate_days in_order given_days ≡ normalize_and_validate_days swapped given_days
normalize_and_validate_days_stable_example =
    normalize_and_validate_days_stable in_order swapped given_days in_order-IsOrder swapped-IsOrder

slots_from-Tiles_example :
    Tiles 1 (date 0 9 0) (date 0 10 30) (slots_from 48 1 (date 0 9 0) (date 0 10 30))
slots_from-Tiles_example = slots_from-Tiles 48 1 (date 0 9 0) (date 0 10 30)

slots_from_enough_example :
    slots_from (48 + 5) 1 (date 0 9 0) (date 0 10 30) ≡ slots_from 48 1 (date 0 9 0) (date 0 10 30)
slots_from_enough_example = slots_from_enough 48 5 1 (date 0 9 0) (date 0 10 30) (omega arith)

parse_hhmm-trim_seconds_example : parse_hhmm (trim_seconds (time_text 34200)) ≡ ok (9, 30)
parse_hhmm-trim_seconds_example = parse_hhmm-trim_seconds 34200 (omega arith)

abbrev mondays : Schedule
mondays = record {
  id = 3;
  room_id = 1;
  days_of_week = pos 1 ∷ [];
  start_time = codes "09:00";
  end_time = codes "10:30";
  created_at = date 0 0 0;
}

nine_parsed : parse_hhmm (codes "09:00") ≡ ok (9, 0)
unfolding parse_hhmm split_on atoi
nine_parsed = refl

half_past_ten_parsed : parse_hhmm (codes "10:30") ≡ ok (10, 30)
unfolding parse_hhmm split_on atoi
half_past_ten_parsed = refl

abbrev monday_slots : List Slot
monday_slots =
    record { room_id = 1; start_at = date 0 9 0; end_at = date 0 9 30 }
    ∷ record { room_id = 1; start_at = date 0 9 30; end_at = date 0 10 0 }
    ∷ record { room_id = 1; start_at = date 0 10 0; end_at = date 0 10 30 }
    ∷ []

monday_run : generate_slots_for_date mondays (date 0 12 0) ≡ ok monday_slots
unfolding generate_slots_for_date truncate_to_day_utc parse_hhmm split_on atoi normalize_days
    weekday_to_iso slots_from
monday_run = refl

Offers-iff_example : Offers (date 0 9 30) monday_slots ↔ (
    (is_start_at_within_schedule mondays (date 0 9 30) ≡ true)
    × (civil_day (date 0 9 30) ≡ civil_day (date 0 12 0)))
Offers-iff_example =
    Offers-iff mondays nine_parsed half_past_ten_parsed refl (date 0 9 30) (date 0 12 0) refl
      monday_run
