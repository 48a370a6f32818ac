-- ===== src/Slots/Generator.antt =====
-- `GenerateSlotsForDate`, `IsStartAtWithinSchedule` and `truncateToDayUTC` of
-- internal/service/slot_generator.go.
pub mod Loop
pub mod Agreement
use room_booking.Base.{
  ℕ, zero, suc, ◌+◌, ◌*◌, ◌%◌, List, [], ◌∷◌, Bool, true, false, not, ◌&&◌, ◌||◌, ltb, ◌==◌,
  if◌then◌else◌,
}
use room_booking.Domain.Errors.{Result, ok, err, ◌>>=◌, wrapped}
use room_booking.Domain.Time.{
  Time, utc, add, before, date, civil_day, hour_of, minute_of, second_of, nanosecond_of, weekday,
}
use room_booking.Domain.Entities.{Uuid, Slot, Schedule}
use room_booking.Slots.Parse.{parse_hhmm}
use room_booking.Slots.Days.{weekday_to_iso, normalize_days}

-- `SlotDuration`, 30 minutes in nanoseconds.
abbrev pub slot_duration : ℕ
slot_duration = 1800000000000

unfoldable pub truncate_to_day_utc : Time → Time
truncate_to_day_utc t = let u = utc t in date (civil_day u) 0 0

abbrev pub slot_at : Uuid → Time → Slot
slot_at room cursor = record {
  room_id = room;
  start_at = cursor;
  end_at = add cursor slot_duration;
}

-- The loop over the cursor, on fuel.
unfoldable pub slots_from : ℕ → Uuid → Time → Time → List Slot
slots_from zero room cursor window_end = []
slots_from (suc fuel) room cursor window_end =
    let rest = slot_at room cursor ∷ slots_from fuel room (add cursor slot_duration) window_end in
    if before cursor window_end
    then if before window_end (add cursor slot_duration) then [] else rest
    else []

-- A day has 48 slots.
abbrev pub slots_fuel : ℕ
slots_fuel = 48

unfoldable pub generate_slots_for_date : Schedule → Time → Result (List Slot)
unfolding truncate_to_day_utc
generate_slots_for_date schedule at = do
  (start_hour, start_minute) ← wrapped "parse start time" (parse_hhmm schedule.start_time)
  (end_hour, end_minute) ← wrapped "parse end time" (parse_hhmm schedule.end_time)
  let day_utc = truncate_to_day_utc at
  let window_start = date (civil_day day_utc) start_hour start_minute
  let window_end = date (civil_day day_utc) end_hour end_minute
  if not (normalize_days schedule.days_of_week (weekday_to_iso (weekday day_utc)))
      then ok []
      else ok (slots_from slots_fuel schedule.room_id window_start window_end)

-- The comparisons with the window, in minutes of the day.
abbrev within_window : ℕ → Result (ℕ × ℕ) → Result (ℕ × ℕ) → Bool
within_window current (ok (sh, sm)) (ok (eh, em)) =
    if ltb current (sh * 60 + sm)
    then false
    else if ltb (eh * 60 + em) (current + 30)
    then false
    else true
within_window current (ok _) (err _) = false
within_window current (err _) _ = false

unfoldable pub is_start_at_within_schedule : Schedule → Time → Bool
is_start_at_within_schedule schedule at =
    let start_at = utc at in
    if not (second_of start_at == 0) || not (nanosecond_of start_at == 0)
    then false
    else if not (minute_of start_at % 30 == 0)
    then false
    else if not (normalize_days schedule.days_of_week (weekday_to_iso (weekday start_at)))
    then false
    else within_window (hour_of start_at * 60 + minute_of start_at) (parse_hhmm schedule.start_time)
        (parse_hhmm schedule.end_time)
