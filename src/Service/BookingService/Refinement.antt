-- ===== src/Service/BookingService/Refinement.antt =====
-- The booking service of internal/service/booking_service.go in a quiet world against the
-- abstract service of Ledger: the view of the rows that it shows, and its requests.
pub mod Views
pub mod Insert
pub mod Booking
pub mod Runs
use room_booking.Base.{ℕ, List, [], ◌∷◌, Option, none, some, Bool, true, false, ◌==◌, if◌then◌else◌}
use room_booking.Domain.Time.{Time}
use room_booking.Domain.Entities.{Uuid}
use room_booking.Domain.Errors.{Result, ok, err}
use room_booking.Slots.Generator.{is_start_at_within_schedule}
use room_booking.Storage.Tables.{ScheduleRow, BookingRow, Database, SqlResult, done, failed}
use room_booking.Storage.Statements.{query_row}
use room_booking.Storage.Bookings.{occupies, has_user}
use room_booking.Storage.World.{World, Action}
use room_booking.Storage.ScheduleRepository.{schedule_of_row}
use room_booking.Service.SlotService.Available.{schedules_of}
use room_booking.Service.BookingService.{create, cancel}
use room_booking.Service.BookingService.Ledger.{Ledger, Calendar, Request, book, drop}

-- The active booking of a start.
unfoldable pub holder : Uuid → ℕ → List BookingRow → Option Uuid
holder room start [] = none
holder room start (r ∷ rs) = if occupies room start r then some r.id else holder room start rs

unfoldable pub owner_in : Uuid → List BookingRow → Option Uuid
owner_in id [] = none
owner_in id (r ∷ rs) = if r.id == id then some r.user_id else owner_in id rs

abbrev pub view : List BookingRow → Ledger
view rows = record { held = λ room start. holder room start rows; owner = λ id. owner_in id rows }

abbrev pub admitted : ℕ → Time → SqlResult ScheduleRow → Bool
admitted zone start (done row) = is_start_at_within_schedule (schedule_of_row zone row) start
admitted zone start (failed e) = false

abbrev pub calendar_of : Database → ℕ → Calendar
calendar_of db zone = record {
  admits = λ room start. admitted zone start (query_row (schedules_of room db));
  known = λ user. has_user user db;
}

abbrev pub forget : {A : Type 0} → Result A × World → Result (Unit {0}) × World
forget (ok a, w) = (ok tt, w)
forget (err e, w) = (err e, w)

-- A request, served by the service.
abbrev pub perform : Request → Action (Unit {0})
perform (book now db_now new_id link_id user role room start link) w =
    forget (create now db_now new_id link_id user role room start link w)
perform (drop db_now user role id) w = forget (cancel db_now user role id w)

unfoldable pub perform_all : List Request → World → List (Result (Unit {0})) × World
perform_all [] w = ([], w)
perform_all (q ∷ qs) w =
    let (reply, w') = perform q w in
    let (replies, w'') = perform_all qs w' in (reply ∷ replies, w'')
