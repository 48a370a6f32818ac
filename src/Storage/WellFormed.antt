-- ===== src/Storage/WellFormed.antt =====
-- The invariant of the database under the constraints of migrations/*.sql.
pub mod Inserts
pub mod Cancelling
pub mod Worlds
pub mod Repositories
use room_booking.Base.{
  ℕ, ◌+◌, ◌<◌, ◌≤◌, List, [], ◌∷◌, All, any, text_eq, ltb, length, Bool, true, false, ◌≡◌, ◌==◌,
}
use room_booking.Storage.Tables.{UserRow, RoomRow, ScheduleRow, BookingRow, Database}
use room_booking.Storage.Statements.{has_room, days_valid, on_step, seeded, capacity_allowed}
use room_booking.Storage.Bookings.{interval_30m, is_active, taken, has_user, has_booking}

-- No two active bookings have the same room and start.
abbrev pub OneActive : List BookingRow → Type 0
OneActive [] = Unit
OneActive (b ∷ bs) = (is_active b ≡ true → taken b.room_id b.start_at bs ≡ false) × OneActive bs

-- No two bookings have the same id.
abbrev pub DistinctIds : List BookingRow → Type 0
DistinctIds [] = Unit
DistinctIds (b ∷ bs) = (has_booking b.id bs ≡ false) × DistinctIds bs

abbrev pub DistinctEmails : List UserRow → Type 0
DistinctEmails [] = Unit
DistinctEmails (u ∷ us) = (any (λ r. text_eq r.email u.email) us ≡ false) × DistinctEmails us

-- No room has two schedules.
abbrev pub OnePerRoom : List ScheduleRow → Type 0
OnePerRoom [] = Unit
OnePerRoom (s ∷ ss) = (any (λ r. r.room_id == s.room_id) ss ≡ false) × OnePerRoom ss

-- The bookings refer to rooms and users that are there, and last 30 minutes.
pub record IsBooking (db : Database) (b : BookingRow) : Type 0 where
  pub lasts : b.end_at ≡ b.start_at + interval_30m
  pub room_known : has_room b.room_id db ≡ true
  pub user_known : has_user b.user_id db ≡ true
  pub status_known : seeded b.status_id ≡ true

-- The schedules refer to rooms, their window is not empty and starts and ends on a half hour, and
-- their days are ISO days.
pub record IsSchedule (db : Database) (s : ScheduleRow) : Type 0 where
  pub room_known : has_room s.room_id db ≡ true
  pub end_in_day : s.end_time ≤ 86400
  pub window : s.start_time < s.end_time
  pub start_step : on_step s.start_time ≡ true
  pub end_step : on_step s.end_time ≡ true
  pub some_day : 0 < length s.days_of_week
  pub iso_days : days_valid s.days_of_week ≡ true

pub record WellFormed (db : Database) : Type 0 where
  pub one_active : OneActive db.bookings
  pub distinct_ids : DistinctIds db.bookings
  pub bookings : All (IsBooking db) db.bookings
  pub distinct_emails : DistinctEmails db.users
  pub roles : All (λ u. seeded u.role_id ≡ true) db.users
  pub capacities : All (λ r. capacity_allowed r.capacity ≡ true) db.rooms
  pub one_per_room : OnePerRoom db.schedules
  pub schedules : All (IsSchedule db) db.schedules
