-- ===== src/Storage/Statements.antt =====
-- The SQL statements of internal/storage/postgres/*.go under the constraints of migrations/*.sql.
-- An insert first tests the CHECK constraints, then the unique indexes, then the foreign keys, and
-- stops at the first violation.
pub mod Order
use room_booking.Base.{
  ℕ, ◌%◌, ◌/◌, ℤ, pos, negsuc, ltb, leb, ltb_ℤ, ◌==ℤ◌, ◌==◌, List, [], ◌∷◌, Option, none, some,
  Bool, true, not, ◌&&◌, ◌||◌, any, keep, if◌then◌else◌, GoString, codes, text_eq, length,
}
use room_booking.Domain.Entities.{Uuid}
use room_booking.Storage.Tables.{
  UserRow, RoomRow, ScheduleRow, Database, DbError, unique_violation, check_violation,
  foreign_key_violation, no_rows, failure, SqlResult, done, failed, Statement, users_pkey,
  users_email_key, users_role_id_fkey, rooms_pkey, rooms_capacity_check, schedules_pkey,
  schedules_room_unique, schedules_room_id_fkey, schedules_days_non_empty, schedules_days_valid,
  schedules_time_valid, schedules_start_step, schedules_end_step,
}

-- The error of the first test that fails.
abbrev pub first_violation : List (Bool × DbError) → Option DbError
first_violation [] = none
first_violation ((holds, e) ∷ tests) = if holds then first_violation tests else some e

-- `insert` if no constraint is violated.
abbrev pub unless_violated :
    {A : Type 0} → Option DbError → A → Database → Database → SqlResult A × Database
unless_violated none a old new = (done a, new)
unless_violated (some e) a old new = (failed e, old)

-- An id of a reference table.
abbrev pub seeded : ℤ → Bool
seeded id = id ==ℤ pos 1 || id ==ℤ pos 2

-- The constraints on `users`.
abbrev pub user_tests : UserRow → Database → List (Bool × DbError)
user_tests row db =
    (not (any (λ r. r.id == row.id) db.users), unique_violation users_pkey)
    ∷ (not (any (λ r. text_eq r.email row.email) db.users), unique_violation users_email_key)
    ∷ (seeded row.role_id, foreign_key_violation users_role_id_fkey)
    ∷ []

-- insert into users ... returning ...
unfoldable pub insert_user : UserRow → Statement UserRow
insert_user row db =
    unless_violated (first_violation (user_tests row db)) row db
      (record db { users = row ∷ db.users })

-- The first row, or `pgx.ErrNoRows`.
abbrev pub query_row : {A : Type 0} → List A → SqlResult A
query_row [] = failed no_rows
query_row (r ∷ rs) = done r

-- select ... from users where email = $1
unfoldable pub select_user_by_email : GoString → Statement UserRow
select_user_by_email email db = (query_row (keep (λ r. text_eq r.email email) db.users), db)

-- select ... from users where id = $1
unfoldable pub select_user_by_id : Uuid → Statement UserRow
select_user_by_id id db = (query_row (keep (λ r. r.id == id) db.users), db)

-- The column `capacity integer check (capacity is null or capacity > 0)`.
abbrev pub capacity_allowed : Option ℤ → Bool
capacity_allowed none = true
capacity_allowed (some c) = ltb_ℤ (pos 0) c

-- A value that does not fit the column's four bytes is refused before the statement runs.
abbrev pub fits_integer : Option ℤ → Bool
fits_integer none = true
fits_integer (some (pos n)) = ltb n 2147483648
fits_integer (some (negsuc n)) = ltb n 2147483648

-- The constraints on `rooms`.
abbrev pub room_tests : RoomRow → Database → List (Bool × DbError)
room_tests row db =
    (fits_integer row.capacity, failure (codes "capacity is out of range"))
    ∷ (capacity_allowed row.capacity, check_violation rooms_capacity_check)
    ∷ (not (any (λ r. r.id == row.id) db.rooms), unique_violation rooms_pkey)
    ∷ []

-- insert into rooms ...
unfoldable pub insert_room : RoomRow → Statement (Unit {0})
insert_room row db =
    unless_violated (first_violation (room_tests row db)) tt db
      (record db { rooms = row ∷ db.rooms })

abbrev pub has_room : Uuid → Database → Bool
has_room id db = any (λ (r : RoomRow). r.id == id) db.rooms

-- select exists(select 1 from rooms where id = $1)
unfoldable pub room_exists : Uuid → Statement Bool
room_exists id db = (done (has_room id db), db)

-- A stable sort by a number, ascending: the order of `order by`, where rows that tie may come in
-- any order.
abbrev pub insert_by : {A : Type 0} → (A → ℕ) → A → List A → List A
insert_by key a [] = a ∷ []
insert_by key a (x ∷ xs) = if leb (key a) (key x) then a ∷ x ∷ xs else x ∷ insert_by key a xs

unfoldable pub order_by : {A : Type 0} → (A → ℕ) → List A → List A
order_by key [] = []
order_by key (x ∷ xs) = insert_by key x (order_by key xs)

-- select ... from rooms order by created_at asc
unfoldable pub select_rooms : Statement (List RoomRow)
unfolding order_by
select_rooms db = (done (order_by (λ r. r.created_at) db.rooms), db)

-- `days_of_week <@ array[1,2,3,4,5,6,7]`
abbrev pub days_valid : List ℤ → Bool
days_valid [] = true
days_valid (d ∷ ds) = not (ltb_ℤ d (pos 1) || ltb_ℤ (pos 7) d) && days_valid ds

-- `extract(minute from t) in (0, 30)`
abbrev pub on_step : ℕ → Bool
on_step t = t / 60 % 60 == 0 || t / 60 % 60 == 30

-- The constraints on `schedules`, after the range of the type `time`: up to 24:00:00.
abbrev pub schedule_tests : ScheduleRow → Database → List (Bool × DbError)
schedule_tests row db =
    (leb row.end_time 86400, failure (codes "ERROR: date/time field value out of range"))
    ∷ (ltb 0 (length row.days_of_week), check_violation schedules_days_non_empty)
    ∷ (days_valid row.days_of_week, check_violation schedules_days_valid)
    ∷ (ltb row.start_time row.end_time, check_violation schedules_time_valid)
    ∷ (on_step row.start_time, check_violation schedules_start_step)
    ∷ (on_step row.end_time, check_violation schedules_end_step)
    ∷ (not (any (λ r. r.id == row.id) db.schedules), unique_violation schedules_pkey)
    ∷ (
      not (any (λ r. r.room_id == row.room_id) db.schedules),
      unique_violation schedules_room_unique,
    )
    ∷ (has_room row.room_id db, foreign_key_violation schedules_room_id_fkey)
    ∷ []

-- insert into schedules ...
unfoldable pub insert_schedule : ScheduleRow → Statement (Unit {0})
insert_schedule row db =
    unless_violated (first_violation (schedule_tests row db)) tt db
      (record db { schedules = row ∷ db.schedules })

-- select ... from schedules where room_id = $1
unfoldable pub select_schedule_by_room : Uuid → Statement ScheduleRow
select_schedule_by_room room db = (query_row (keep (λ r. r.room_id == room) db.schedules), db)
