-- ===== src/Service/ScheduleService.antt =====
-- internal/service/schedule_service.go.
pub mod Laws
pub mod Once
use room_booking.Base.{
  ℕ, ◌+◌, ◌*◌, ◌%◌, ℤ, List, Option, GoString, Bool, not, ◌||◌, leb, ◌==◌, if◌then◌else◌,
}
use room_booking.Domain.Time.{Time}
use room_booking.Domain.Entities.{Uuid, Schedule}
use room_booking.Domain.Errors.{Result, ok, err, domain, invalid_request, room_not_found}
use room_booking.Slots.Parse.{parse_hhmm}
use room_booking.Slots.Days.{normalize_and_validate_days}
use room_booking.Storage.World.{Action, ◌>>=◌, ◌>>◌, pure, raise, lift}
use room_booking.Storage.RoomRepository as RoomRepository
use room_booking.Storage.ScheduleRepository as ScheduleRepository

-- The zero value of time.Time.
abbrev pub zero_time : Time
zero_time = record { nanos = 0; zone = 0 }

-- The tests on the two parsed times.
abbrev pub checked_window : Result (ℕ × ℕ) → Result (ℕ × ℕ) → Result (Unit {0})
checked_window (ok (sh, sm)) (ok (eh, em)) =
    if not (sm % 30 == 0) || not (em % 30 == 0)
    then err (domain invalid_request)
    else if leb (eh * 60 + em) (sh * 60 + sm)
    then err (domain invalid_request)
    else ok tt
checked_window (ok _) (err _) = err (domain invalid_request)
checked_window (err _) _ = err (domain invalid_request)

unfoldable pub validate_schedule_window : GoString → GoString → Result (Unit {0})
validate_schedule_window start_time end_time =
    checked_window (parse_hhmm start_time) (parse_hhmm end_time)

-- The guard on `exists`.
abbrev pub require_room : Bool → Action (Unit {0})
require_room exists = if exists then pure tt else raise (domain room_not_found)

abbrev pub new_schedule : Uuid → Uuid → List ℤ → GoString → GoString → Schedule
new_schedule id room days start_time end_time = record {
  id = id;
  room_id = room;
  days_of_week = days;
  start_time = start_time;
  end_time = end_time;
  created_at = zero_time;
}

module _ (order : List ℤ → List ℤ) (pg_time : GoString → Option ℕ) (db_now : ℕ)
    (new_id : Uuid) where
  unfoldable pub create : Uuid → List ℤ → GoString → GoString → Action Schedule
  create room days_of_week start_time end_time = do
    normalized_days ← lift (normalize_and_validate_days order days_of_week)
    lift (validate_schedule_window start_time end_time)
    exists ← RoomRepository.exists room
    require_room exists
    let schedule = new_schedule new_id room normalized_days start_time end_time
    ScheduleRepository.create pg_time db_now schedule
    pure schedule
