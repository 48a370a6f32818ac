-- ===== src/Service/Invariant.antt =====
-- The operations of the services and the invariant of the database.
use room_booking.Service.AuthService.{TextLibrary}
use room_booking.Base.{ℕ, ℤ, pos, ◌==ℤ◌, List, [], ◌∷◌, Option, GoString, Bool, not, text_eq}
use room_booking.Domain.Time.{Time, utc, before}
use room_booking.Domain.Entities.{Uuid, Schedule, Slot, Booking, User}
use room_booking.Domain.Codes.{role_user, role_id_by_code}
use room_booking.Domain.Errors.{Result, ok, err, errors_is, schedule_not_found, user_not_found}
use room_booking.Storage.WellFormed.Worlds.{
  Keeps, keeps_rules, if-Keeps, raise-Keeps, pure-Keeps, lift-Keeps, look-Keeps, bind-Keeps,
}
use room_booking.Storage.WellFormed.Repositories.{
  repository_rules, get_by_room_id-Keeps, create_booking-Keeps, exists-Keeps,
  list_active_starts-Keeps, create_user-Keeps, get_by_email-Keeps,
}
use room_booking.Auth.Jwt.{JwtLibrary, JwtManager}
use room_booking.Auth.Password.{BcryptLibrary}
use room_booking.Service.AuthService as AuthService
use room_booking.Service.RoomService as RoomService
use room_booking.Service.ScheduleService as ScheduleService
use room_booking.Service.SlotService as SlotService
use room_booking.Service.BookingService as BookingService
use room_booking.Service.BookingService.{on_schedule, new_booking}

module _ (order : List ℤ → List ℤ) (pg_time : GoString → Option ℕ) (db_now : ℕ)
    (new_id : Uuid) where
  pub create_schedule_call-Keeps :
      (room : Uuid) (days : List ℤ) (start_time end_time : GoString)
      → Keeps (ScheduleService.create order pg_time db_now new_id room days start_time end_time)
  unfolding ScheduleService.create
  create_schedule_call-Keeps room days start_time end_time =
      search (keeps_rules, repository_rules) depth 20

pub create_room_call-Keeps :
    (db_now : ℕ) (new_id : Uuid) (name : GoString) (description : Option GoString)
    (capacity : Option ℤ)
    → Keeps (RoomService.create db_now new_id name description capacity)
unfolding RoomService.create
create_room_call-Keeps db_now new_id name description capacity =
    search (keeps_rules, repository_rules) depth 9

less_booked-Keeps :
    (room : Uuid) (at : Time) (slots : List Slot) → Keeps (SlotService.less_booked room at slots)
less_booked-Keeps room at [] = pure-Keeps
less_booked-Keeps room at (s ∷ slots) =
    bind-Keeps (list_active_starts-Keeps room _ _) (λ starts. pure-Keeps)

from_schedule-Keeps :
    (room : Uuid) (at : Time) (r : Result Schedule) → Keeps (SlotService.from_schedule room at r)
from_schedule-Keeps room at (err e) =
    if-Keeps (errors_is e schedule_not_found) pure-Keeps raise-Keeps
from_schedule-Keeps room at (ok schedule) =
    bind-Keeps lift-Keeps (λ slots. less_booked-Keeps room at slots)

pub list_slots_call-Keeps :
    (room : Uuid) (at : Time) → Keeps (SlotService.list_available_by_room_and_date room at)
unfolding SlotService.list_available_by_room_and_date
list_slots_call-Keeps room at = bind-Keeps (exists-Keeps room) (λ exists.
    if-Keeps exists (look-Keeps (get_by_room_id-Keeps room) (from_schedule-Keeps room at))
      raise-Keeps)

on_schedule-Keeps :
    (db_now : ℕ) (b : Booking) (r : Result Schedule) → Keeps (on_schedule db_now b r)
on_schedule-Keeps db_now b (err e) = if-Keeps _ raise-Keeps raise-Keeps
on_schedule-Keeps db_now b (ok schedule) =
    if-Keeps _ raise-Keeps (bind-Keeps (create_booking-Keeps db_now b) (λ _. pure-Keeps))

module _ (now : Time) (db_now : ℕ) (new_id : Uuid) (link_id : GoString) where
  pub create_booking_call-Keeps :
      (user : Uuid) (role : GoString) (room : Uuid) (start : Time) (link : Bool)
      → Keeps (BookingService.create now db_now new_id link_id user role room start link)
  unfolding BookingService.create
  create_booking_call-Keeps user role room start link =
      if-Keeps (not (text_eq role role_user)) raise-Keeps (
        if-Keeps (before (utc start) now) raise-Keeps (
          look-Keeps (get_by_room_id-Keeps room)
            (on_schedule-Keeps db_now (new_booking new_id link_id user room (utc start) link))))

pub cancel_booking_call-Keeps :
    (db_now : ℕ) (user : Uuid) (role : GoString) (id : Uuid)
    → Keeps (BookingService.cancel db_now user role id)
unfolding BookingService.cancel
cancel_booking_call-Keeps db_now user role id = search (keeps_rules, repository_rules) depth 9

pub list_my_call-Keeps :
    (now : Time) (user : Uuid) (role : GoString) → Keeps (BookingService.list_my now user role)
unfolding BookingService.list_my
list_my_call-Keeps now user role = search (keeps_rules, repository_rules)

pub list_all_call-Keeps :
    (role : GoString) (page page_size : ℤ) → Keeps (BookingService.list_all role page page_size)
unfolding BookingService.list_all
list_all_call-Keeps role page page_size = search (keeps_rules, repository_rules)

module _ (jwt : JwtLibrary) (bcrypt : BcryptLibrary) (texts : TextLibrary)
    (uuid_string : Uuid → GoString) (manager : JwtManager) where
  pub register_call-Keeps :
      (db_now : ℕ) (new_id : Uuid) (email password role : GoString)
      → Keeps (
          AuthService.register jwt bcrypt texts uuid_string manager db_now new_id email password
            role)
  unfolding AuthService.register
  register_call-Keeps db_now new_id email password role = bind-Keeps lift-Keeps (λ _.
      if-Keeps (role_id_by_code role ==ℤ pos 0) raise-Keeps
        (bind-Keeps lift-Keeps (λ hash. create_user-Keeps db_now _)))

  from_user-Keeps :
      (now later : Time) (password : GoString) (r : Result User)
      → Keeps (AuthService.from_user jwt bcrypt texts uuid_string manager now later password r)
  from_user-Keeps now later password (err e) =
      if-Keeps (errors_is e user_not_found) raise-Keeps raise-Keeps
  from_user-Keeps now later password (ok user) = search keeps_rules depth 9

  pub login_call-Keeps :
      (now later : Time) (email password : GoString)
      → Keeps (AuthService.login jwt bcrypt texts uuid_string manager now later email password)
  unfolding AuthService.login
  login_call-Keeps now later email password =
      bind-Keeps lift-Keeps
        (λ _. look-Keeps (get_by_email-Keeps _) (from_user-Keeps now later password))
