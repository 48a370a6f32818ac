-- ===== src/Service/RoomService.antt =====
-- internal/service/room_service.go.
pub mod Listing
use room_booking.Base.{
  ℕ, ℤ, pos, ltb_ℤ, List, Option, none, some, GoString, codes, Bool, false, not, text_eq,
  if◌then◌else◌,
}
use room_booking.Domain.Entities.{Uuid, Room}
use room_booking.Domain.Errors.{domain, invalid_request}
use room_booking.Storage.World.{Action, ◌>>◌, pure, raise}
use room_booking.Storage.RoomRepository as RoomRepository
use room_booking.Service.ScheduleService.{zero_time}

-- `capacity != nil && *capacity <= 0`
abbrev pub not_positive : Option ℤ → Bool
not_positive none = false
not_positive (some c) = not (ltb_ℤ (pos 0) c)

abbrev pub new_room : Uuid → GoString → Option GoString → Option ℤ → Room
new_room id name description capacity = record {
  id = id;
  name = name;
  description = description;
  capacity = capacity;
  created_at = zero_time;
}

unfoldable pub create : ℕ → Uuid → GoString → Option GoString → Option ℤ → Action Room
create db_now new_id name description capacity =
    if text_eq name (codes "")
    then raise (domain invalid_request)
    else if not_positive capacity
    then raise (domain invalid_request)
    else do
      let room = new_room new_id name description capacity
      RoomRepository.create db_now room
      pure room

-- `List`
unfoldable pub list : Action (List Room)
list = RoomRepository.list
