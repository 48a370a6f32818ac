-- ===== src/Storage/WellFormed/Repositories.antt =====
-- The methods of the repositories and the invariant of the database.
use room_booking.Base.{ℕ, Option, none, some, GoString}
use room_booking.Domain.Time.{Time}
use room_booking.Domain.Entities.{Uuid, User, Room, Schedule, Booking}
use room_booking.Storage.Statements.{
  select_user_by_email, room_exists, select_rooms, select_schedule_by_room,
}
use room_booking.Storage.Bookings.{
  select_booking, select_bookings_from, count_bookings, select_bookings_page, select_active_starts,
}
use room_booking.Storage.BookingRepository as BookingRepository
use room_booking.Storage.BookingRepository.{row_of_booking, offset_of}
use room_booking.Storage.ScheduleRepository as ScheduleRepository
use room_booking.Storage.UserRepository as UserRepository
use room_booking.Storage.RoomRepository as RoomRepository
use room_booking.Storage.WellFormed.Inserts.{
  insert_user-WellFormed, insert_room-WellFormed, insert_schedule-WellFormed,
  insert_booking-WellFormed,
}
use room_booking.Storage.WellFormed.Cancelling.{cancel_booking-WellFormed}
use room_booking.Storage.WellFormed.Worlds.{
  StatementKeeps, Keeps, run_sql-Keeps, on_result-Keeps, with_zone-Keeps, bind-Keeps, pure-Keeps,
}

pub create_booking-Keeps : (db_now : ℕ) (b : Booking) → Keeps (BookingRepository.create db_now b)
unfolding BookingRepository.create
create_booking-Keeps db_now b = on_result-Keeps _ (run_sql-Keeps _ (insert_booking-WellFormed _))

pub cancel_booking-Keeps : (db_now : ℕ) (id : Uuid) → Keeps (BookingRepository.cancel db_now id)
unfolding BookingRepository.cancel
cancel_booking-Keeps db_now id =
    with_zone-Keeps
      (λ zone. on_result-Keeps _ (run_sql-Keeps _ (cancel_booking-WellFormed id db_now)))

pub get_booking_by_id-Keeps : (id : Uuid) → Keeps (BookingRepository.get_by_id id)
unfolding BookingRepository.get_by_id select_booking
get_booking_by_id-Keeps id =
    with_zone-Keeps (λ zone. on_result-Keeps _ (run_sql-Keeps _ (λ db h. h)))

pub list_by_user_future-Keeps :
    (user : Uuid) (now : Time) → Keeps (BookingRepository.list_by_user_future user now)
unfolding BookingRepository.list_by_user_future select_bookings_from
list_by_user_future-Keeps user now =
    with_zone-Keeps (λ zone. on_result-Keeps _ (run_sql-Keeps _ (λ db h. h)))

pub list_active_starts-Keeps :
    (room : Uuid) (from : Time) (to : Time)
    → Keeps (BookingRepository.list_active_starts_by_room_between room from to)
unfolding BookingRepository.list_active_starts_by_room_between select_active_starts
list_active_starts-Keeps room from to =
    with_zone-Keeps (λ zone. on_result-Keeps _ (run_sql-Keeps _ (λ db h. h)))

pub list_all_bookings-Keeps :
    (page page_size : ℕ) → Keeps (BookingRepository.list_all page page_size)
unfolding BookingRepository.list_all count_bookings select_bookings_page
list_all_bookings-Keeps page page_size = with_zone-Keeps (λ zone.
    bind-Keeps (on_result-Keeps _ (run_sql-Keeps _ (λ db h. h))) (λ total.
      bind-Keeps (on_result-Keeps _ (run_sql-Keeps _ (λ db h. h))) (λ bookings. pure-Keeps)))

insert_schedule_text-WellFormed :
    (db_now : ℕ) (s : Schedule) (start_time end_time : Option ℕ)
    → StatementKeeps (ScheduleRepository.insert_schedule_text db_now s start_time end_time)
unfolding ScheduleRepository.insert_schedule_text
insert_schedule_text-WellFormed db_now s (some a) (some b) db h =
    insert_schedule-WellFormed (ScheduleRepository.row_of_schedule db_now s a b) db h
insert_schedule_text-WellFormed db_now s (some a) none db h = h
insert_schedule_text-WellFormed db_now s none b db h = h

pub create_schedule-Keeps :
    (pg_time : GoString → Option ℕ) (db_now : ℕ) (s : Schedule)
    → Keeps (ScheduleRepository.create pg_time db_now s)
unfolding ScheduleRepository.create
create_schedule-Keeps pg_time db_now s =
    on_result-Keeps _ (run_sql-Keeps _ (insert_schedule_text-WellFormed db_now s _ _))

pub get_by_room_id-Keeps : (room : Uuid) → Keeps (ScheduleRepository.get_by_room_id room)
unfolding ScheduleRepository.get_by_room_id select_schedule_by_room
get_by_room_id-Keeps room =
    with_zone-Keeps (λ zone. on_result-Keeps _ (run_sql-Keeps _ (λ db h. h)))

pub create_user-Keeps : (db_now : ℕ) (u : User) → Keeps (UserRepository.create db_now u)
unfolding UserRepository.create
create_user-Keeps db_now u =
    with_zone-Keeps (λ zone. on_result-Keeps _ (run_sql-Keeps _ (insert_user-WellFormed _)))

pub get_by_email-Keeps : (email : GoString) → Keeps (UserRepository.get_by_email email)
unfolding UserRepository.get_by_email select_user_by_email
get_by_email-Keeps email = with_zone-Keeps (λ zone. on_result-Keeps _ (run_sql-Keeps _ (λ db h. h)))

pub create_room-Keeps : (db_now : ℕ) (r : Room) → Keeps (RoomRepository.create db_now r)
unfolding RoomRepository.create
create_room-Keeps db_now r = on_result-Keeps _ (run_sql-Keeps _ (insert_room-WellFormed _))

pub exists-Keeps : (room : Uuid) → Keeps (RoomRepository.exists room)
unfolding RoomRepository.exists room_exists
exists-Keeps room = on_result-Keeps _ (run_sql-Keeps _ (λ db h. h))

pub list_rooms-Keeps : Keeps RoomRepository.list
unfolding RoomRepository.list select_rooms
list_rooms-Keeps = with_zone-Keeps (λ zone. on_result-Keeps _ (run_sql-Keeps _ (λ db h. h)))

pub ruleset repository_rules = (
  create_booking-Keeps, cancel_booking-Keeps, get_booking_by_id-Keeps, list_by_user_future-Keeps,
  list_active_starts-Keeps, list_all_bookings-Keeps, create_schedule-Keeps, get_by_room_id-Keeps,
  create_user-Keeps, get_by_email-Keeps, create_room-Keeps, exists-Keeps, list_rooms-Keeps,
)
