-- ===== src/Storage/WellFormed/Cancelling.antt =====
-- The update that cancels and the invariant of the database.
use room_booking.Base.{All-imp, ℕ, List, [], ◌∷◌, All, false, ◌≡◌, refl, arith}
use room_booking.Domain.Entities.{Uuid}
use room_booking.Storage.Tables.{BookingRow, Database}
use room_booking.Storage.Bookings.{taken, has_booking, cancel_rows, cancel_booking}
use room_booking.Storage.WellFormed.{WellFormed, OneActive, DistinctIds, IsBooking, IsSchedule}

module _ (id : Uuid) (now : ℕ) where
  pub taken-cancel_rows :
      (room : Uuid) (start : ℕ) (rs : List BookingRow)
      → taken room start rs ≡ false
      → taken room start (cancel_rows id now rs) ≡ false
  unfolding taken cancel_rows
  taken-cancel_rows room start [] h = refl
  taken-cancel_rows room start (r ∷ rs) h = ground (arith, taken-cancel_rows room start rs)

  pub has_booking-cancel_rows :
      (k : Uuid) (rs : List BookingRow) → has_booking k (cancel_rows id now rs) ≡ has_booking k rs
  unfolding cancel_rows
  has_booking-cancel_rows k [] = refl
  has_booking-cancel_rows k (r ∷ rs) = ground (arith, has_booking-cancel_rows k rs)

  cancel_rows-OneActive : (rs : List BookingRow) → OneActive rs → OneActive (cancel_rows id now rs)
  unfolding cancel_rows
  cancel_rows-OneActive [] h = tt
  cancel_rows-OneActive (r ∷ rs) h = (
    (λ active. ground (arith, taken-cancel_rows r.room_id r.start_at rs)),
    cancel_rows-OneActive rs h.1,
  )

  cancel_rows-DistinctIds :
      (rs : List BookingRow) → DistinctIds rs → DistinctIds (cancel_rows id now rs)
  unfolding cancel_rows
  cancel_rows-DistinctIds [] h = tt
  cancel_rows-DistinctIds (r ∷ rs) h =
      (ground (arith, has_booking-cancel_rows r.id rs), cancel_rows-DistinctIds rs h.1)

  cancel_rows-IsBooking :
      (db : Database) (new : List BookingRow) (rs : List BookingRow)
      → All (IsBooking db) rs
      → All (IsBooking (record db { bookings = new })) (cancel_rows id now rs)
  unfolding cancel_rows
  cancel_rows-IsBooking db new [] h = tt
  cancel_rows-IsBooking db new (r ∷ rs) h = (ground arith, cancel_rows-IsBooking db new rs h.1)

  pub cancel_booking-WellFormed :
      (db : Database) → WellFormed db → WellFormed (cancel_booking id now db).1
  unfolding cancel_booking
  cancel_booking-WellFormed db h = record {
    one_active = cancel_rows-OneActive db.bookings h.one_active;
    distinct_ids = cancel_rows-DistinctIds db.bookings h.distinct_ids;
    bookings = cancel_rows-IsBooking db (cancel_rows id now db.bookings) db.bookings h.bookings;
    distinct_emails = h.distinct_emails;
    roles = h.roles;
    capacities = h.capacities;
    one_per_room = h.one_per_room;
    schedules =
        All-imp (IsSchedule db)
          (IsSchedule (record db { bookings = cancel_rows id now db.bookings })) db.schedules
          (λ s k. ground arith) h.schedules;
  }
