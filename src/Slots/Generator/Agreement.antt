-- ===== src/Slots/Generator/Agreement.antt =====
-- `GenerateSlotsForDate` and `IsStartAtWithinSchedule` on the same schedule.
use room_booking.Base.{
  ℕ, ◌+◌, ◌*◌, ◌-◌, ◌/◌, ◌%◌, ◌≤◌, ◌<◌, List, [], ◌≡◌, ◌↔◌, refl, ap, not, inl, inr, arith,
  Bool-cases, true, false, Bool, if◌then◌else◌, sym,
}
use room_booking.Domain.Errors.{ok, Result-cases, ok-ne-err}
use room_booking.Domain.Time.{
  Time, date, utc_zone, civil_day, hour_of, minute_of, second_of, nanosecond_of, weekday, day, hour,
  minute, second, second,
}
use room_booking.Domain.Entities.{Slot, Schedule}
use room_booking.Slots.Parse.{parse_hhmm}
use room_booking.Slots.Parse.Range.{parse_hhmm_bounds}
use room_booking.Slots.Days.{normalize_days, weekday_to_iso}
use room_booking.Slots.Generator.{
  slot_duration, slots_fuel, slots_from, generate_slots_for_date, is_start_at_within_schedule,
}
use room_booking.Slots.Generator.Loop.{Offers, slots_from_sound, slots_from_complete}

-- A start on the grid of the window, in the words of the comment over `IsStartAtWithinSchedule`.
pub record OnGrid (schedule : Schedule) (sh sm eh em : ℕ) (t : Time) : Type 0 where
  pub whole_second : nanosecond_of t ≡ 0
  pub whole_minute : second_of t ≡ 0
  pub half_hour : minute_of t % 30 ≡ 0
  pub day_allowed : normalize_days schedule.days_of_week (weekday_to_iso (weekday t)) ≡ true
  pub not_before : sh * 60 + sm ≤ hour_of t * 60 + minute_of t
  pub not_after : hour_of t * 60 + minute_of t + 30 ≤ eh * 60 + em

module _ (schedule : Schedule) {sh sm eh em : ℕ}
    (start_parsed : parse_hhmm schedule.start_time ≡ ok (sh, sm))
    (end_parsed : parse_hhmm schedule.end_time ≡ ok (eh, em)) where
  within→OnGrid :
      (t : Time) → is_start_at_within_schedule schedule t ≡ true → OnGrid schedule sh sm eh em t
  unfolding is_start_at_within_schedule
  within→OnGrid t h = ground arith

  OnGrid→within :
      (t : Time) → OnGrid schedule sh sm eh em t → is_start_at_within_schedule schedule t ≡ true
  unfolding is_start_at_within_schedule
  OnGrid→within t g = ground arith

-- Slots are generated only if the end of the window can be read.
pub generate-end_parsed :
    (schedule : Schedule) (at : Time) {sh sm : ℕ} {slots : List Slot}
    → parse_hhmm schedule.start_time ≡ ok (sh, sm)
    → generate_slots_for_date schedule at ≡ ok slots
    → (p : ℕ × ℕ) × (parse_hhmm schedule.end_time ≡ ok p)
unfolding generate_slots_for_date
generate-end_parsed schedule at start_parsed e =
    elim (Result-cases (parse_hhmm schedule.end_time)) [
      | inl parsed ↦ parsed
      | inr (failure, unread) ↦ absurd (ok-ne-err (sym (rw (start_parsed, unread) at e)))
    ]

-- The instants of a window on a day, in numbers.
minutes_of_start :
    (d sh sm k n : ℕ)
    → n ≡ d * day + sh * hour + sm * minute + k * slot_duration
    → n + slot_duration ≤ d * day + 24 * hour
    → (n / day ≡ d) × (n / hour % 24 * 60 + n / minute % 60 ≡ sh * 60 + sm + 30 * k)
minutes_of_start d sh sm k n e h = omega arith

start-on-grid :
    (d sh sm k n : ℕ)
    → n ≡ d * day + sh * hour + sm * minute + k * slot_duration
    → sm % 30 ≡ 0
    → (n % second ≡ 0) × (n / second % 60 ≡ 0) × (n / minute % 60 % 30 ≡ 0)
start-on-grid d sh sm k n e h = omega arith

-- The slot of a start on the grid, counted from the start of the window.
slot_number : ℕ → ℕ → ℕ → ℕ
slot_number sh sm n = (n / hour % 24 * 60 + n / minute % 60 - (sh * 60 + sm)) / 30

grid-start :
    (sh sm n : ℕ)
    → sm % 30 ≡ 0
    → n % second ≡ 0
    → n / second % 60 ≡ 0
    → n / minute % 60 % 30 ≡ 0
    → sh * 60 + sm ≤ n / hour % 24 * 60 + n / minute % 60
    → n ≡ n / day * day + sh * hour + sm * minute + slot_number sh sm n * slot_duration
unfolding slot_number
grid-start sh sm n a b c d e = omega arith

slot_number-lt : (sh sm n : ℕ) → slot_number sh sm n < slots_fuel
unfolding slot_number
slot_number-lt sh sm n = omega arith

grid-end :
    (eh em n : ℕ)
    → n % second ≡ 0
    → n / second % 60 ≡ 0
    → n / hour % 24 * 60 + n / minute % 60 + 30 ≤ eh * 60 + em
    → n + slot_duration ≤ n / day * day + eh * hour + em * minute
grid-end eh em n a b c = omega arith

time_path : (t u : Time) → t.nanos ≡ u.nanos → t.zone ≡ u.zone → t ≡ u
time_path t u p q = ground arith

if-ok :
    (b : Bool) (xs ys : List Slot) → (if not b then ok xs else ok ys) ≡ ok (if b then ys else xs)
if-ok true xs ys = refl
if-ok false xs ys = refl

module _ (schedule : Schedule) {sh sm eh em : ℕ}
    (start_parsed : parse_hhmm schedule.start_time ≡ ok (sh, sm))
    (end_parsed : parse_hhmm schedule.end_time ≡ ok (eh, em)) where
  -- The window of a day and its loop.
  abbrev window : ℕ → List Slot
  window d = slots_from slots_fuel schedule.room_id (date d sh sm) (date d eh em)

  abbrev allowed : Time → Bool
  allowed t = normalize_days schedule.days_of_week (weekday_to_iso (weekday t))

  when_utc :
      (b : Bool) (d : ℕ) (t : Time) → Offers t (if b then window d else []) → t.zone ≡ utc_zone
  when_utc true d t o =
      let (k, started, ends) =
        slots_from_sound slots_fuel schedule.room_id (date d sh sm) (date d eh em) t o in
      ap (λ u. u.zone) started
  when_utc false d t o = absurd o

  pub generate-window :
      (at : Time)
      → generate_slots_for_date schedule at ≡ ok (if allowed at then window (civil_day at) else [])
  unfolding generate_slots_for_date
  generate-window at =
      let midnight : (civil_day at * day + 0 * hour + 0 * minute) / day ≡ civil_day at =
        omega arith in
      rw (start_parsed, end_parsed, midnight) (if-ok (allowed at) [] (window (civil_day at)))

  -- Every start is in UTC.
  pub Offers-utc :
      (t at : Time) {slots : List Slot}
      → generate_slots_for_date schedule at ≡ ok slots
      → Offers t slots
      → t.zone ≡ utc_zone
  Offers-utc t at {slots} e o =
      let same : slots ≡ (if allowed at then window (civil_day at) else []) =
        cc (generate-window at, e) in
      when_utc (allowed at) (civil_day at) t (rw same at o)

  module _ (half_hour : sm % 30 ≡ 0) where
    Offers→OnGrid :
        (t at : Time)
        → allowed at ≡ true
        → Offers t (window (civil_day at))
        → OnGrid schedule sh sm eh em t × (civil_day t ≡ civil_day at)
    Offers→OnGrid t at day_allowed o =
        let d = civil_day at in
        let (k, started, ends) =
          slots_from_sound slots_fuel schedule.room_id (date d sh sm) (date d eh em) t o in
        let bounds = parse_hhmm_bounds schedule.end_time end_parsed in
        let at_start : t.nanos ≡ d * day + sh * hour + sm * minute + k * slot_duration =
          ap (λ u. u.nanos) started in
        let (same_day, current) = minutes_of_start d sh sm k t.nanos at_start (omega arith) in
        let (a, b, c) = start-on-grid d sh sm k t.nanos at_start half_hour in
        (
          record {
            whole_second = a;
            whole_minute = b;
            half_hour = c;
            day_allowed = rw same_day day_allowed;
            not_before = omega arith;
            not_after = omega arith;
          },
          same_day,
        )

    OnGrid→Offers :
        (t at : Time)
        → t.zone ≡ utc_zone
        → OnGrid schedule sh sm eh em t
        → civil_day t ≡ civil_day at
        → Offers t (window (civil_day at))
    OnGrid→Offers t at in_utc g same_day =
        let k = slot_number sh sm t.nanos in
        let bounds = parse_hhmm_bounds schedule.end_time end_parsed in
        let at_start =
          grid-start sh sm t.nanos half_hour g.whole_second g.whole_minute g.half_hour
            g.not_before in
        slots_from_complete slots_fuel schedule.room_id (date (civil_day at) sh sm)
          (date (civil_day at) eh em) t k (slot_number-lt sh sm t.nanos)
          (time_path _ _ (omega arith) in_utc)
          (omega (arith, grid-end eh em t.nanos g.whole_second g.whole_minute g.not_after))

    Offers-when_iff :
        (t at : Time)
        → t.zone ≡ utc_zone
        → Offers t (if allowed at then window (civil_day at) else [])
          ↔ ((is_start_at_within_schedule schedule t ≡ true) × (civil_day t ≡ civil_day at))
    Offers-when_iff t at in_utc = elim (Bool-cases (allowed at)) [
      | inl yes_day ↦ rw yes_day (
        (λ o.
            let (g, same_day) = Offers→OnGrid t at yes_day o in
            (OnGrid→within schedule start_parsed end_parsed t g, same_day)),
        (λ h. OnGrid→Offers t at in_utc (within→OnGrid schedule start_parsed end_parsed t h.0) h.1),
      )
      | inr no_day ↦ rw no_day (
        (λ o. absurd o),
        (λ h.
            let g = within→OnGrid schedule start_parsed end_parsed t h.0 in
            let same : allowed t ≡ allowed at =
              ap (λ d. normalize_days schedule.days_of_week (weekday_to_iso ((d + 1) % 7))) h.1 in
            cc (g.day_allowed, same, no_day)),
      )
    ]

    -- For a schedule whose window is readable and starts on a half hour, when slots are generated
    -- for a date, a start in UTC is among them exactly if IsStartAtWithinSchedule accepts it and it
    -- falls on that date.
    pub Offers-iff :
        (t at : Time) {slots : List Slot}
        → t.zone ≡ utc_zone
        → generate_slots_for_date schedule at ≡ ok slots
        → Offers t slots
          ↔ ((is_start_at_within_schedule schedule t ≡ true) × (civil_day t ≡ civil_day at))
    Offers-iff t at {slots} in_utc e =
        let same : (if allowed at then window (civil_day at) else []) ≡ slots =
          cc (generate-window at, e) in
        rw same at (Offers-when_iff t at in_utc)
