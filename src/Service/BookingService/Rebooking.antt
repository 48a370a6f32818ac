-- ===== src/Service/BookingService/Rebooking.antt =====
-- A start that its owner has cancelled can be booked again, by anyone.
use room_booking.Base.{ℕ, GoString, Bool, true, false, ◌≡◌, refl, ap, ◌∙◌}
use mathlib.Core.Path.{subst}
use room_booking.Domain.Time.{Time, utc, before}
use room_booking.Domain.Entities.{Uuid}
use room_booking.Domain.Codes.{role_user}
use room_booking.Domain.Errors.{ok}
use room_booking.Slots.Generator.{is_start_at_within_schedule}
use room_booking.Storage.Tables.{ScheduleRow, BookingRow, Database, done}
use room_booking.Storage.Statements.{query_row}
use room_booking.Storage.Bookings.{taken, is_active, has_user, has_booking, cancel_booking}
use room_booking.Storage.World.{to_timestamptz}
use room_booking.Storage.World.Quiet.{quiet}
use room_booking.Storage.ScheduleRepository.{schedule_of_row}
use room_booking.Storage.WellFormed.{WellFormed}
use room_booking.Storage.WellFormed.Cancelling.{cancel_booking-WellFormed, has_booking-cancel_rows}
use room_booking.Service.SlotService.Available.{IsFree, schedules_of}
use room_booking.Service.BookingService.{new_booking, create, cancel}
use room_booking.Service.BookingService.Free.{create_free}
use room_booking.Service.BookingService.Cancelling.{
  booking_row, after_cancel, cancel_owner, cancel-freed,
}

after_cancel-WellFormed :
    (id : Uuid) (now : ℕ) (db : Database) → WellFormed db → WellFormed (after_cancel id now db)
unfolding cancel_booking
after_cancel-WellFormed id now db h = cancel_booking-WellFormed id now db h

module _ (db : Database) (zone : ℕ) (owner id : Uuid) (cancelled_at : ℕ) (now : Time) (db_now : ℕ)
    (new_id : Uuid) (link_id : GoString) (user : Uuid) (start : Time) (link : Bool) where
  -- With no other client and a connection that does not fail, over a well-formed database, after
  -- the owner has cancelled an active booking, its start, if the schedule admits it and it is not
  -- in the past, is booked for any known user who asks for it with a new id.
  pub create-cancel :
      {row : BookingRow} {schedule : ScheduleRow}
      → WellFormed db
      → booking_row id db.bookings ≡ done row
      → row.user_id ≡ owner
      → is_active row ≡ true
      → to_timestamptz (utc start) ≡ row.start_at
      → query_row (schedules_of row.room_id db) ≡ done schedule
      → is_start_at_within_schedule (schedule_of_row zone schedule) (utc start) ≡ true
      → before (utc start) now ≡ false
      → has_user user db ≡ true
      → has_booking new_id db.bookings ≡ false
      → (create now db_now new_id link_id user role_user row.room_id start link
          (cancel cancelled_at owner role_user id (quiet db zone)).1).0
        ≡ ok (new_booking new_id link_id user row.room_id (utc start) link)
  create-cancel {row} {schedule} h found own active same_start scheduled within coming known fresh =
      let after = after_cancel id cancelled_at db in
      let left = ap (λ p. p.1) (cancel_owner db zone owner id cancelled_at found own) in
      let freed : taken row.room_id (to_timestamptz (utc start)) after.bookings ≡ false =
        rw same_start (
          subst (λ w. taken row.room_id row.start_at w.db.bookings ≡ false) left
            (cancel-freed db zone owner id cancelled_at h found own active)) in
      let free : IsFree after zone row.room_id (utc start) (utc start) = record {
        row = schedule;
        found = scheduled;
        in_utc = refl;
        on_schedule = within;
        on_date = refl;
        free = freed;
      } in
      ap (λ w. (create now db_now new_id link_id user role_user row.room_id start link w).0) left
      ∙ ap (λ p. p.0)
          (create_free after zone now db_now new_id link_id user row.room_id start link (utc start)
            (after_cancel-WellFormed id cancelled_at db h) known
            (has_booking-cancel_rows id cancelled_at new_id db.bookings ∙ fresh) coming free)
