-- ===== src/Storage/ScheduleRepository.antt =====
-- internal/storage/postgres/schedules.go: the repository of the schedules. `pg_time` stands for
-- how PostgreSQL reads a text as a `time`: the seconds of the day, or none if it refuses the text.
pub mod RoundTrip
use room_booking.Base.{
  ℕ, ◌+◌, ◌/◌, ◌%◌, GoString, codes, List, [], ◌∷◌, ◌++◌, Option, none, some, Bool, ◌&&◌, leb,
  if◌then◌else◌, length, take, count_byte,
}
use room_booking.Domain.Entities.{Uuid, Schedule}
use room_booking.Domain.Errors.{Result, ok, err, domain, wrap, schedule_exists, schedule_not_found}
use room_booking.Storage.Tables.{
  ScheduleRow, DbError, no_rows, failure, SqlResult, done, failed, Statement, schedules_room_unique,
}
use room_booking.Storage.Statements.{insert_schedule, select_schedule_by_room}
use room_booking.Storage.World.{World, Action, run_sql, with_zone, on_result, from_timestamptz}
use room_booking.Storage.Failures.{mentions, driver_error}

-- `trimSeconds`
unfoldable pub trim_seconds : GoString → GoString
trim_seconds value =
    if leb 5 (length value) && leb 2 (count_byte b':' value) then take 5 value else value

-- Two decimal digits.
abbrev pub two_digits : ℕ → GoString
two_digits n = (b'0' + n / 10 % 10) ∷ (b'0' + n % 10) ∷ []

-- A `time` of whole seconds cast to text: HH:MM:SS.
unfoldable pub time_text : ℕ → GoString
time_text t =
    two_digits (t / 3600) ++ (b':' ∷ (two_digits (t / 60 % 60) ++ (b':' ∷ two_digits (t % 60))))

abbrev pub row_of_schedule : ℕ → Schedule → ℕ → ℕ → ScheduleRow
row_of_schedule db_now s start_time end_time = record {
  id = s.id;
  room_id = s.room_id;
  days_of_week = s.days_of_week;
  start_time = start_time;
  end_time = end_time;
  created_at = db_now;
}

-- The insert with its two texts read as times; a text that is refused fails the statement.
unfoldable pub insert_schedule_text : ℕ → Schedule → Option ℕ → Option ℕ → Statement (Unit {0})
insert_schedule_text db_now s (some start_time) (some end_time) db =
    insert_schedule (row_of_schedule db_now s start_time end_time) db
insert_schedule_text db_now s _ _ db =
    (failed (failure (codes "ERROR: invalid input syntax for type time (SQLSTATE 22007)")), db)

abbrev pub created : SqlResult (Unit {0}) → Result (Unit {0})
created (done _) = ok tt
created (failed e) =
    if mentions e schedules_room_unique
    then err (domain schedule_exists)
    else err (wrap "insert schedule" (driver_error e))

unfoldable pub create : (GoString → Option ℕ) → ℕ → Schedule → Action (Unit {0})
unfolding insert_schedule_text
create pg_time db_now s =
    on_result (run_sql (insert_schedule_text db_now s (pg_time s.start_time) (pg_time s.end_time)))
      created

unfoldable pub schedule_of_row : ℕ → ScheduleRow → Schedule
schedule_of_row zone r = record {
  id = r.id;
  room_id = r.room_id;
  days_of_week = r.days_of_week;
  start_time = trim_seconds (time_text r.start_time);
  end_time = trim_seconds (time_text r.end_time);
  created_at = from_timestamptz zone r.created_at;
}

abbrev pub scanned : ℕ → SqlResult ScheduleRow → Result Schedule
scanned zone (done r) = ok (schedule_of_row zone r)
scanned zone (failed no_rows) = err (domain schedule_not_found)
scanned zone (failed e) = err (wrap "get schedule by room id" (driver_error e))

unfoldable pub get_by_room_id : Uuid → Action Schedule
get_by_room_id room =
    with_zone (λ zone. on_result (run_sql (select_schedule_by_room room)) (scanned zone))
