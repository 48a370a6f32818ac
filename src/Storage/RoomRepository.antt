-- ===== src/Storage/RoomRepository.antt =====
-- internal/storage/postgres/room.go: the repository of the rooms.
use room_booking.Base.{ℕ, List, map, Bool}
use room_booking.Domain.Entities.{Uuid, Room}
use room_booking.Domain.Errors.{Result, ok, err, wrap}
use room_booking.Storage.Tables.{RoomRow, SqlResult, done, failed}
use room_booking.Storage.Statements.{insert_room, room_exists, select_rooms}
use room_booking.Storage.World.{Action, run_sql, with_zone, on_result, from_timestamptz}
use room_booking.Storage.Failures.{driver_error}

abbrev pub row_of_room : ℕ → Room → RoomRow
row_of_room db_now r = record {
  id = r.id;
  name = r.name;
  description = r.description;
  capacity = r.capacity;
  created_at = db_now;
}

abbrev pub created : SqlResult (Unit {0}) → Result (Unit {0})
created (done _) = ok tt
created (failed e) = err (wrap "insert room" (driver_error e))

unfoldable pub create : ℕ → Room → Action (Unit {0})
create db_now r = on_result (run_sql (insert_room (row_of_room db_now r))) created

abbrev pub checked : SqlResult Bool → Result Bool
checked (done b) = ok b
checked (failed e) = err (wrap "check room exists" (driver_error e))

unfoldable pub exists : Uuid → Action Bool
exists id = on_result (run_sql (room_exists id)) checked

unfoldable pub room_of_row : ℕ → RoomRow → Room
room_of_row zone r = record {
  id = r.id;
  name = r.name;
  description = r.description;
  capacity = r.capacity;
  created_at = from_timestamptz zone r.created_at;
}

abbrev pub scanned_rows : ℕ → SqlResult (List RoomRow) → Result (List Room)
scanned_rows zone (done rows) = ok (map (room_of_row zone) rows)
scanned_rows zone (failed e) = err (wrap "list rooms" (driver_error e))

-- `List`
unfoldable pub list : Action (List Room)
list = with_zone (λ zone. on_result (run_sql select_rooms) (scanned_rows zone))
