-- ===== src/Service/SlotService.antt =====
-- internal/service/slot_service.go.
pub mod Free
pub mod Available
pub mod Total
use room_booking.Base.{ℕ, List, [], ◌∷◌, Bool, not, any, keep, map, if◌then◌else◌}
use room_booking.Domain.Time.{Time, utc, add, day, time_eq}
use room_booking.Domain.Entities.{Uuid, Slot, Schedule}
use room_booking.Domain.Errors.{
  Result, ok, err, domain, errors_is, room_not_found, schedule_not_found,
}
use room_booking.Slots.Generator.{generate_slots_for_date, truncate_to_day_utc}
use room_booking.Storage.World.{World, Action, ◌>>=◌, ◌>>◌, pure, raise, lift, look}
use room_booking.Storage.RoomRepository as RoomRepository
use room_booking.Storage.ScheduleRepository as ScheduleRepository
use room_booking.Storage.BookingRepository as BookingRepository

-- The slots whose start is no key of the map `booked`.
unfoldable pub free_slots : List Time → List Slot → List Slot
free_slots booked_starts slots =
    let booked = map utc booked_starts in
    keep (λ (s : Slot). not (any (λ t. time_eq t s.start_at) booked)) slots

-- The slots less those booked, by a query that an empty list saves.
abbrev pub less_booked : Uuid → Time → List Slot → Action (List Slot)
less_booked room at [] = pure []
less_booked room at (s ∷ slots) = do
  let day_start = truncate_to_day_utc at
  booked_starts ←
      BookingRepository.list_active_starts_by_room_between room day_start (add day_start day)
  pure (free_slots booked_starts (s ∷ slots))

-- What follows the read of the schedule.
abbrev pub from_schedule : Uuid → Time → Result Schedule → Action (List Slot)
from_schedule room at (err e) = if errors_is e schedule_not_found then pure [] else raise e
from_schedule room at (ok schedule) = do
  slots ← lift (generate_slots_for_date schedule at)
  less_booked room at slots

abbrev pub if_exists : Uuid → Time → Bool → Action (List Slot)
if_exists room at exists =
    if exists
    then look (ScheduleRepository.get_by_room_id room) (from_schedule room at)
    else raise (domain room_not_found)

unfoldable pub list_available_by_room_and_date : Uuid → Time → Action (List Slot)
list_available_by_room_and_date room at = do
  exists ← RoomRepository.exists room
  if_exists room at exists
