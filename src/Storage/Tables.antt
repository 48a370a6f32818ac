-- ===== src/Storage/Tables.antt =====
-- The tables of migrations/001_init.sql and 002_integrity_and_indexes.sql. A timestamptz is an
-- instant in microseconds, a time its seconds of the day. A table is a list of rows, the newest
-- first: SQL gives it no order. The reference tables user_roles and booking_statuses hold the
-- ids 1 and 2 of the seed in 003_seed_dummy_data.sql, and no statement of the program writes them.
use room_booking.Base.{ℕ, ℤ, List, Option, GoString}
use room_booking.Domain.Entities.{Uuid}

pub record UserRow : Type 0 where
  pub id : Uuid
  pub email : GoString
  pub role_id : ℤ
  pub password_hash : Option GoString
  pub created_at : ℕ

pub record RoomRow : Type 0 where
  pub id : Uuid
  pub name : GoString
  pub description : Option GoString
  pub capacity : Option ℤ
  pub created_at : ℕ

pub record ScheduleRow : Type 0 where
  pub id : Uuid
  pub room_id : Uuid
  pub days_of_week : List ℤ
  pub start_time : ℕ
  pub end_time : ℕ
  pub created_at : ℕ

pub record BookingRow : Type 0 where
  pub id : Uuid
  pub room_id : Uuid
  pub user_id : Uuid
  pub status_id : ℤ
  pub start_at : ℕ
  pub end_at : ℕ
  pub conference_link : Option GoString
  pub created_at : ℕ
  pub cancelled_at : Option ℕ

pub record Database : Type 0 where
  pub users : List UserRow
  pub rooms : List RoomRow
  pub schedules : List ScheduleRow
  pub bookings : List BookingRow

-- The constraints and unique indexes, by their names in the schema; those without a name there
-- have the one that PostgreSQL gives them.
pub data Constraint : Type 0 where
  users_pkey users_email_key users_role_id_fkey : Constraint
  rooms_pkey rooms_capacity_check : Constraint
  schedules_pkey schedules_room_unique schedules_room_id_fkey : Constraint
  schedules_days_non_empty schedules_days_valid schedules_time_valid : Constraint
  schedules_start_step schedules_end_step : Constraint
  bookings_pkey bookings_one_active_per_room_start_idx : Constraint
  bookings_room_id_fkey bookings_user_id_fkey bookings_status_id_fkey : Constraint
  bookings_time_valid bookings_duration_30m : Constraint

-- What the driver reports: a violation of each kind, no row for QueryRow, or any other failure
-- with its text.
pub data DbError : Type 0 where
  unique_violation check_violation foreign_key_violation : Constraint → DbError
  no_rows : DbError
  failure : GoString → DbError

pub data SqlResult (A : Type 0) : Type 0 where
  done : A → SqlResult A
  failed : DbError → SqlResult A

-- A statement runs on the database as one atomic step.
abbrev pub Statement : Type 0 → Type 0
Statement A = Database → SqlResult A × Database
