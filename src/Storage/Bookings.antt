-- ===== src/Storage/Bookings.antt =====
-- The SQL statements of internal/storage/postgres/booking.go on the table `bookings`.
use room_booking.Base.{
  ℕ, ◌+◌, ltb, leb, ◌==ℤ◌, ◌==◌, List, [], ◌∷◌, Option, none, some, Bool, not, ◌&&◌, any, keep, map,
  if◌then◌else◌, codes, take, drop, length, reverse,
}
use room_booking.Domain.Entities.{Uuid}
use room_booking.Domain.Codes.{booking_status_id_active, booking_status_id_cancelled}
use room_booking.Storage.Tables.{
  UserRow, BookingRow, Database, DbError, unique_violation, check_violation, foreign_key_violation,
  failure, done, failed, Statement, bookings_pkey, bookings_one_active_per_room_start_idx,
  bookings_room_id_fkey, bookings_user_id_fkey, bookings_status_id_fkey, bookings_time_valid,
  bookings_duration_30m,
}
use room_booking.Storage.Statements.{
  first_violation, unless_violated, seeded, query_row, has_room, order_by,
}

-- `interval '30 minutes'`, in microseconds.
abbrev pub interval_30m : ℕ
interval_30m = 1800000000

abbrev pub is_active : BookingRow → Bool
is_active r = r.status_id ==ℤ booking_status_id_active

-- The rows of the partial index bookings_one_active_per_room_start_idx with the given key.
abbrev pub occupies : Uuid → ℕ → BookingRow → Bool
occupies room start r = is_active r && (r.room_id == room && r.start_at == start)

unfoldable pub taken : Uuid → ℕ → List BookingRow → Bool
taken room start rows = any (occupies room start) rows

abbrev pub has_user : Uuid → Database → Bool
has_user id db = any (λ (r : UserRow). r.id == id) db.users

abbrev pub has_booking : Uuid → List BookingRow → Bool
has_booking id rows = any (λ (r : BookingRow). r.id == id) rows

-- The constraints on `bookings`.
abbrev pub booking_tests : BookingRow → Database → List (Bool × DbError)
booking_tests row db =
    (ltb row.start_at row.end_at, check_violation bookings_time_valid)
    ∷ (row.end_at == row.start_at + interval_30m, check_violation bookings_duration_30m)
    ∷ (not (has_booking row.id db.bookings), unique_violation bookings_pkey)
    ∷ (
      not (is_active row && taken row.room_id row.start_at db.bookings),
      unique_violation bookings_one_active_per_room_start_idx,
    )
    ∷ (has_room row.room_id db, foreign_key_violation bookings_room_id_fkey)
    ∷ (has_user row.user_id db, foreign_key_violation bookings_user_id_fkey)
    ∷ (seeded row.status_id, foreign_key_violation bookings_status_id_fkey)
    ∷ []

-- insert into bookings ...
unfoldable pub insert_booking : BookingRow → Statement (Unit {0})
insert_booking row db =
    unless_violated (first_violation (booking_tests row db)) tt db
      (record db { bookings = row ∷ db.bookings })

-- select ... from bookings where id = $1
unfoldable pub select_booking : Uuid → Statement BookingRow
select_booking id db = (query_row (keep (λ r. r.id == id) db.bookings), db)

-- `coalesce(a, now())`
abbrev pub coalesce : Option ℕ → ℕ → Option ℕ
coalesce none now = some now
coalesce (some t) now = some t

abbrev pub cancelled_row : ℕ → BookingRow → BookingRow
cancelled_row now r = record r {
  status_id = booking_status_id_cancelled;
  cancelled_at = coalesce r.cancelled_at now;
}

unfoldable pub cancel_rows : Uuid → ℕ → List BookingRow → List BookingRow
cancel_rows id now [] = []
cancel_rows id now (r ∷ rs) =
    (if r.id == id then cancelled_row now r else r) ∷ cancel_rows id now rs

-- update bookings set status_id = 2, cancelled_at = coalesce(cancelled_at, now()) where id = $1
-- returning ...
unfoldable pub cancel_booking : Uuid → ℕ → Statement BookingRow
unfolding cancel_rows
cancel_booking id now db =
    let rows = cancel_rows id now db.bookings in
    (query_row (keep (λ r. r.id == id) rows), record db { bookings = rows })

-- select ... from bookings where user_id = $1 and start_at >= $2 order by start_at asc
unfoldable pub select_bookings_from : Uuid → ℕ → Statement (List BookingRow)
select_bookings_from user from db = (
  done (
      order_by (λ r. r.start_at)
        (keep (λ r. r.user_id == user && leb from r.start_at) db.bookings)),
  db,
)

-- select count(*) from bookings
unfoldable pub count_bookings : Statement ℕ
count_bookings db = (done (length db.bookings), db)

-- select ... from bookings order by created_at desc limit $1 offset $2; a negative offset, in two's
-- complement of 64 bits, is an error.
unfoldable pub select_bookings_page : ℕ → ℕ → Statement (List BookingRow)
select_bookings_page limit offset db = (
  if ltb offset 9223372036854775808
      then done (take limit (drop offset (reverse (order_by (λ r. r.created_at) db.bookings))))
      else failed (failure (codes "ERROR: OFFSET must not be negative (SQLSTATE 2201X)")),
  db,
)

-- select start_at from bookings where room_id = $1 and status_id = $2 and start_at >= $3 and
-- start_at < $4
unfoldable pub select_active_starts : Uuid → ℕ → ℕ → Statement (List ℕ)
select_active_starts room from to db = (
  done (
      map (λ r. r.start_at)
        (keep
          (λ (r : BookingRow).
            r.room_id == room && (is_active r && (leb from r.start_at && ltb r.start_at to)))
          db.bookings)),
  db,
)
