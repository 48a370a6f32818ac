-- ===== src/Service/SlotService/Total.antt =====
-- `ListAvailableByRoomAndDate` in a quiet world: whether it answers.
use room_booking.Base.{ℕ, ◌<◌, List, [], ◌∷◌, All, true, ◌==◌, ◌≡◌, refl, inl, inr, arith}
use room_booking.Domain.Time.{Time}
use room_booking.Domain.Entities.{Uuid, Slot}
use room_booking.Domain.Errors.{ok, errors_is}
use room_booking.Slots.Generator.Agreement.{generate-window}
use room_booking.Storage.Tables.{ScheduleRow, Database}
use room_booking.Storage.Statements.{query_row, has_room}
use room_booking.Storage.Bookings.{select_active_starts}
use room_booking.Storage.World.{run_sql, on_result}
use room_booking.Storage.World.Quiet.{quiet}
use room_booking.Storage.ScheduleRepository as ScheduleRepository
use room_booking.Storage.ScheduleRepository.{schedule_of_row}
use room_booking.Storage.ScheduleRepository.RoundTrip.{parse_hhmm-trim_seconds}
use room_booking.Storage.BookingRepository as BookingRepository
use room_booking.Storage.WellFormed.{WellFormed}
use room_booking.Service.SlotService.{less_booked, from_schedule, list_available_by_room_and_date}
use room_booking.Service.SlotService.Available.{
  schedules_of, get_by_room_id-quiet, query_row-cases, All-query_row, list_available-quiet,
}

module _ (db : Database) (zone : ℕ) (room : Uuid) (at : Time) where
  less_booked-answers :
      (slots : List Slot)
      → (result : List Slot) × ((less_booked room at slots (quiet db zone)).0 ≡ ok result)
  unfolding BookingRepository.list_active_starts_by_room_between on_result run_sql
      select_active_starts
  less_booked-answers [] = ([], refl)
  less_booked-answers (s ∷ slots) = (_, refl)

  from_row-answers :
      (row : ScheduleRow)
      → row.start_time < 86400
      → row.end_time < 86400
      → (result : List Slot) × ((from_schedule room at
            (ok (schedule_of_row zone row))
            (quiet db zone)).0
          ≡ ok result)
  unfolding schedule_of_row
  from_row-answers row start_in_day end_in_day =
      let start_parsed = parse_hhmm-trim_seconds row.start_time start_in_day in
      let end_parsed = parse_hhmm-trim_seconds row.end_time end_in_day in
      let worked = generate-window (schedule_of_row zone row) start_parsed end_parsed at in
      rw worked (less_booked-answers _)

  from_query-answers :
      WellFormed db
      → All (λ r. r.end_time < 86400) db.schedules
      → (result : List Slot) × ((from_schedule room at
            (ScheduleRepository.scanned zone (query_row (schedules_of room db)))
            (quiet db zone)).0
          ≡ ok result)
  unfolding errors_is
  from_query-answers h in_day = elim (query_row-cases (schedules_of room db)) [
    | inl (row, found) ↦
        let valid = All-query_row _ (λ r. r.room_id == room) db.schedules h.schedules found in
        let end_in_day =
          All-query_row (λ r. r.end_time < 86400) (λ r. r.room_id == room) db.schedules in_day
            found in
        rw found (from_row-answers row (omega (arith, valid.window)) end_in_day)
    | inr missing ↦ rw missing ([], refl)
  ]

  -- With no other client and a connection that does not fail, over a well-formed database whose
  -- schedules end before midnight, the slot list of a room that exists is returned.
  pub list_available_answers :
      WellFormed db
      → All (λ r. r.end_time < 86400) db.schedules
      → has_room room db ≡ true
      → (result : List Slot) × ((list_available_by_room_and_date room at (quiet db zone)).0
          ≡ ok result)
  list_available_answers h in_day known =
      rw list_available-quiet (rw known (rw get_by_room_id-quiet (from_query-answers h in_day)))
