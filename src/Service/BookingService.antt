-- ===== src/Service/BookingService.antt =====
-- internal/service/booking_service.go. `now` is the value of `s.nowFn()`, `new_id` that of
-- `uuid.New()` and `link_id` that of `uuid.NewString()`.
pub mod Creation
pub mod Free
pub mod Cancelling
pub mod Ledger
pub mod Refinement
pub mod Rebooking
pub mod Pages
pub mod Mine
use room_booking.Base.{
  ℕ, ℤ, pos, negsuc, List, Option, none, some, GoString, codes, ◌++◌, Bool, true, false, not,
  text_eq, ltb, ◌==◌, if◌then◌else◌,
}
use room_booking.Domain.Time.{Time, utc, add, before}
use room_booking.Domain.Entities.{Uuid, Booking, Schedule}
use room_booking.Domain.Codes.{
  role_user, role_admin, booking_status_active, booking_status_id_active,
}
use room_booking.Domain.Errors.{
  Result, ok, err, domain, errors_is, forbidden, invalid_request, slot_not_found,
  schedule_not_found,
}
use room_booking.Slots.Generator.{slot_duration, is_start_at_within_schedule}
use room_booking.Storage.World.{World, Action, ◌>>=◌, ◌>>◌, pure, raise, look}
use room_booking.Storage.ScheduleRepository as ScheduleRepository
use room_booking.Storage.BookingRepository as BookingRepository
use room_booking.Service.ScheduleService.{zero_time}

abbrev conference_link : Bool → GoString → Option GoString
conference_link true link_id = some (codes "https://conference.mock/" ++ link_id)
conference_link false link_id = none

-- The booking that `Create` builds.
abbrev pub new_booking : Uuid → GoString → Uuid → Uuid → Time → Bool → Booking
new_booking new_id link_id user room start_at create_conference_link = record {
  id = new_id;
  room_id = room;
  user_id = user;
  status_id = booking_status_id_active;
  status = booking_status_active;
  start_at = start_at;
  end_at = add start_at slot_duration;
  conference_link = conference_link create_conference_link link_id;
  created_at = zero_time;
  cancelled_at = none;
}

-- What follows the read of the schedule: the test of the start and the insert.
abbrev pub on_schedule : ℕ → Booking → Result Schedule → Action Booking
on_schedule db_now booking (err e) =
    if errors_is e schedule_not_found then raise (domain slot_not_found) else raise e
on_schedule db_now booking (ok schedule) =
    if not (is_start_at_within_schedule schedule booking.start_at)
    then raise (domain slot_not_found)
    else do BookingRepository.create db_now booking; pure booking

module _ (now : Time) (db_now : ℕ) (new_id : Uuid) (link_id : GoString) where
  unfoldable pub create : Uuid → GoString → Uuid → Time → Bool → Action Booking
  create user role room start create_conference_link =
      let start_at = utc start in
      if not (text_eq role role_user)
      then raise (domain forbidden)
      else if before start_at now
      then raise (domain invalid_request)
      else look (ScheduleRepository.get_by_room_id room) (
          on_schedule db_now (new_booking new_id link_id user room start_at create_conference_link))

unfoldable pub cancel : ℕ → Uuid → GoString → Uuid → Action Booking
cancel db_now user role id = if not (text_eq role role_user) then raise (domain forbidden) else do
  booking ← BookingRepository.get_by_id id
  if not (booking.user_id == user)
      then raise (domain forbidden)
      else BookingRepository.cancel db_now id

unfoldable pub list_my : Time → Uuid → GoString → Action (List Booking)
list_my now user role =
    if not (text_eq role role_user)
    then raise (domain forbidden)
    else BookingRepository.list_by_user_future user now

-- `if n <= 0 { n = d }`
abbrev pub positive_or : ℕ → ℤ → ℕ
positive_or d (pos n) = if n == 0 then d else n
positive_or d (negsuc n) = d

unfoldable pub list_all : GoString → ℤ → ℤ → Action (List Booking × ℕ)
list_all role page page_size =
    let p = positive_or 1 page in
    let size = positive_or 20 page_size in
    if not (text_eq role role_admin)
    then raise (domain forbidden)
    else if ltb 100 size
    then raise (domain invalid_request)
    else BookingRepository.list_all p size
