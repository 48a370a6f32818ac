-- ===== src/Storage/UserRepository.antt =====
-- internal/storage/postgres/user.go: the repository of the users.
use room_booking.Base.{ℕ, String, GoString, codes, Option, none, some, if◌then◌else◌}
use room_booking.Domain.Entities.{Uuid, User}
use room_booking.Domain.Errors.{Result, ok, err, domain, wrap, email_taken, user_not_found}
use room_booking.Domain.Codes.{role_code_by_id}
use room_booking.Storage.Tables.{UserRow, no_rows, SqlResult, done, failed}
use room_booking.Storage.Statements.{insert_user, select_user_by_email, select_user_by_id}
use room_booking.Storage.World.{Action, run_sql, with_zone, on_result, from_timestamptz}
use room_booking.Storage.Failures.{is_unique_violation, driver_error}

abbrev pub row_of_user : ℕ → User → UserRow
row_of_user db_now u = record {
  id = u.id;
  email = u.email;
  role_id = u.role_id;
  password_hash = some u.password_hash;
  created_at = db_now;
}

-- A null hash is left the empty string.
abbrev pub hash_of : Option GoString → GoString
hash_of none = codes ""
hash_of (some hash) = hash

unfoldable pub user_of_row : ℕ → UserRow → User
user_of_row zone r = record {
  id = r.id;
  email = r.email;
  role_id = r.role_id;
  role = role_code_by_id r.role_id;
  password_hash = hash_of r.password_hash;
  created_at = from_timestamptz zone r.created_at;
}

abbrev pub created : ℕ → SqlResult UserRow → Result User
created zone (done r) = ok (user_of_row zone r)
created zone (failed e) =
    if is_unique_violation e
    then err (domain email_taken)
    else err (wrap "insert user" (driver_error e))

unfoldable pub create : ℕ → User → Action User
create db_now u =
    with_zone (λ zone. on_result (run_sql (insert_user (row_of_user db_now u))) (created zone))

abbrev pub scanned : String → ℕ → SqlResult UserRow → Result User
scanned message zone (done r) = ok (user_of_row zone r)
scanned message zone (failed no_rows) = err (domain user_not_found)
scanned message zone (failed e) = err (wrap message (driver_error e))

unfoldable pub get_by_email : GoString → Action User
get_by_email email =
    with_zone
      (λ zone. on_result (run_sql (select_user_by_email email)) (scanned "get user by email" zone))

unfoldable pub get_by_id : Uuid → Action User
get_by_id id =
    with_zone (λ zone. on_result (run_sql (select_user_by_id id)) (scanned "get user by id" zone))
