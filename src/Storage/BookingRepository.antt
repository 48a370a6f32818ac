-- ===== src/Storage/BookingRepository.antt =====
-- internal/storage/postgres/booking.go: the repository of the bookings. `db_now` is the value of
-- `now()` in the database, in microseconds.
use room_booking.Base.{ℕ, ◌-◌, ◌*◌, ◌%◌, String, List, map, none, if◌then◌else◌}
use mathlib.Core.Option
use room_booking.Domain.Time.{Time, utc}
use room_booking.Domain.Entities.{Uuid, Booking}
use room_booking.Domain.Errors.{
  Result, ok, err, domain, wrap, slot_already_booked, booking_not_found,
}
use room_booking.Domain.Codes.{booking_status_code_by_id}
use room_booking.Storage.Tables.{
  BookingRow, no_rows, SqlResult, done, failed, bookings_one_active_per_room_start_idx,
}
use room_booking.Storage.Bookings.{
  insert_booking, select_booking, cancel_booking, select_bookings_from, count_bookings,
  select_bookings_page, select_active_starts,
}
use room_booking.Storage.World.{
  Action, run_sql, with_zone, on_result, to_timestamptz, from_timestamptz, ◌>>=◌, pure,
}
use room_booking.Storage.Failures.{mentions, driver_error}

-- The row that `insert into bookings` writes.
abbrev pub row_of_booking : ℕ → Booking → BookingRow
row_of_booking db_now b = record {
  id = b.id;
  room_id = b.room_id;
  user_id = b.user_id;
  status_id = b.status_id;
  start_at = to_timestamptz b.start_at;
  end_at = to_timestamptz b.end_at;
  conference_link = b.conference_link;
  created_at = db_now;
  cancelled_at = none;
}

-- The booking that a scan reads from a row.
unfoldable pub booking_of_row : ℕ → BookingRow → Booking
booking_of_row zone r = record {
  id = r.id;
  room_id = r.room_id;
  user_id = r.user_id;
  status_id = r.status_id;
  status = booking_status_code_by_id r.status_id;
  start_at = from_timestamptz zone r.start_at;
  end_at = from_timestamptz zone r.end_at;
  conference_link = r.conference_link;
  created_at = from_timestamptz zone r.created_at;
  cancelled_at = Option.map (from_timestamptz zone) r.cancelled_at;
}

abbrev pub created : SqlResult (Unit {0}) → Result (Unit {0})
created (done _) = ok tt
created (failed e) =
    if mentions e bookings_one_active_per_room_start_idx
    then err (domain slot_already_booked)
    else err (wrap "insert booking" (driver_error e))

unfoldable pub create : ℕ → Booking → Action (Unit {0})
create db_now b = on_result (run_sql (insert_booking (row_of_booking db_now b))) created

-- The booking of `scanSingleBooking`, with its error wrapped unless there was no row.
abbrev pub scanned : String → ℕ → SqlResult BookingRow → Result Booking
scanned message zone (done r) = ok (booking_of_row zone r)
scanned message zone (failed no_rows) = err (domain booking_not_found)
scanned message zone (failed e) = err (wrap message (driver_error e))

unfoldable pub get_by_id : Uuid → Action Booking
get_by_id id =
    with_zone
      (λ zone. on_result (run_sql (select_booking id)) (scanned "select booking by id" zone))

unfoldable pub cancel : ℕ → Uuid → Action Booking
cancel db_now id =
    with_zone
      (λ zone. on_result (run_sql (cancel_booking id db_now)) (scanned "cancel booking" zone))

-- The bookings of `scanBookingRows`.
abbrev pub scanned_rows : String → ℕ → SqlResult (List BookingRow) → Result (List Booking)
scanned_rows message zone (done rows) = ok (map (booking_of_row zone) rows)
scanned_rows message zone (failed e) = err (wrap message (driver_error e))

unfoldable pub list_by_user_future : Uuid → Time → Action (List Booking)
list_by_user_future user now = with_zone (λ zone.
    on_result (run_sql (select_bookings_from user (to_timestamptz (utc now))))
      (scanned_rows "list my bookings" zone))

abbrev pub counted : SqlResult ℕ → Result ℕ
counted (done n) = ok n
counted (failed e) = err (wrap "count bookings" (driver_error e))

-- `(page - 1) * pageSize` in 64 bits, in two's complement; the service calls it with page ≥ 1 and
-- 1 ≤ pageSize ≤ 100.
abbrev pub offset_of : ℕ → ℕ → ℕ
offset_of page page_size = (page - 1) * page_size % 18446744073709551616

unfoldable pub list_all : ℕ → ℕ → Action (List Booking × ℕ)
list_all page page_size = with_zone (λ zone. (do
  total ← on_result (run_sql count_bookings) counted
  bookings ←
      on_result (run_sql (select_bookings_page page_size (offset_of page page_size)))
        (scanned_rows "list bookings" zone)
  pure (bookings, total)))

abbrev pub scanned_starts : ℕ → SqlResult (List ℕ) → Result (List Time)
scanned_starts zone (done starts) = ok (map (λ t. utc (from_timestamptz zone t)) starts)
scanned_starts zone (failed e) = err (wrap "list active bookings" (driver_error e))

unfoldable pub list_active_starts_by_room_between : Uuid → Time → Time → Action (List Time)
list_active_starts_by_room_between room from to = with_zone (λ zone.
    on_result
      (run_sql (select_active_starts room (to_timestamptz (utc from)) (to_timestamptz (utc to))))
      (scanned_starts zone))
