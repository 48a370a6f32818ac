-- ===== src/Storage/Failures.antt =====
-- How the repositories read the errors of the driver: `strings.Contains(err.Error(), name)`,
-- the code "23505" of a unique violation, and `pgx.ErrNoRows`.
use room_booking.Base.{String, GoString, codes, contains, Bool, true, false}
use room_booking.Domain.Errors.{Error, plain}
use room_booking.Storage.Tables.{
  Constraint, DbError, unique_violation, check_violation, foreign_key_violation, no_rows, failure,
  users_pkey, users_email_key, users_role_id_fkey, rooms_pkey, rooms_capacity_check, schedules_pkey,
  schedules_room_unique, schedules_room_id_fkey, schedules_days_non_empty, schedules_days_valid,
  schedules_time_valid, schedules_start_step, schedules_end_step, bookings_pkey,
  bookings_one_active_per_room_start_idx, bookings_room_id_fkey, bookings_user_id_fkey,
  bookings_status_id_fkey, bookings_time_valid, bookings_duration_30m,
}

abbrev pub constraint_name : Constraint → String
constraint_name users_pkey = "users_pkey"
constraint_name users_email_key = "users_email_key"
constraint_name users_role_id_fkey = "users_role_id_fkey"
constraint_name rooms_pkey = "rooms_pkey"
constraint_name rooms_capacity_check = "rooms_capacity_check"
constraint_name schedules_pkey = "schedules_pkey"
constraint_name schedules_room_unique = "schedules_room_unique"
constraint_name schedules_room_id_fkey = "schedules_room_id_fkey"
constraint_name schedules_days_non_empty = "schedules_days_non_empty"
constraint_name schedules_days_valid = "schedules_days_valid"
constraint_name schedules_time_valid = "schedules_time_valid"
constraint_name schedules_start_step = "schedules_start_step"
constraint_name schedules_end_step = "schedules_end_step"
constraint_name bookings_pkey = "bookings_pkey"
constraint_name bookings_one_active_per_room_start_idx = "bookings_one_active_per_room_start_idx"
constraint_name bookings_room_id_fkey = "bookings_room_id_fkey"
constraint_name bookings_user_id_fkey = "bookings_user_id_fkey"
constraint_name bookings_status_id_fkey = "bookings_status_id_fkey"
constraint_name bookings_time_valid = "bookings_time_valid"
constraint_name bookings_duration_30m = "bookings_duration_30m"

-- The part of `err.Error()` that varies: a violation's text quotes the name of the constraint.
abbrev pub error_text : DbError → GoString
error_text (unique_violation c) = codes (constraint_name c)
error_text (check_violation c) = codes (constraint_name c)
error_text (foreign_key_violation c) = codes (constraint_name c)
error_text no_rows = codes "no rows in result set"
error_text (failure text) = text

-- `strings.Contains(err.Error(), name)`
unfoldable pub mentions : DbError → Constraint → Bool
unfolding contains
mentions e c = contains (error_text e) (codes (constraint_name c))

-- `errors.As(err, &pgErr) && pgErr.Code == "23505"`
abbrev pub is_unique_violation : DbError → Bool
is_unique_violation (unique_violation c) = true
is_unique_violation _ = false

-- The driver's error as a Go error.
abbrev pub driver_error : DbError → Error
driver_error e = plain "database error"
