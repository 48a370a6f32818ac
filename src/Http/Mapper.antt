-- ===== src/Http/Mapper.antt =====
-- internal/transport/http/mapper.go.
use room_booking.Base.{List, map, Option, none, some, if◌then◌else◌}
use room_booking.Domain.Time.{Time, utc, is_zero}
use room_booking.Domain.Entities.{User, Room, Schedule, Slot, Booking}
use room_booking.Http.Api.{ApiUser, ApiRoom, ApiSchedule, ApiSlot, ApiBooking}

abbrev pub time_ptr : Time → Option Time
time_ptr t = if is_zero t then none else some (utc t)

unfoldable pub user_to_api : User → ApiUser
user_to_api u = record {
  id = u.id;
  email = u.email;
  role = u.role;
  created_at = time_ptr u.created_at;
}

unfoldable pub room_to_api : Room → ApiRoom
room_to_api r = record {
  id = r.id;
  name = r.name;
  description = r.description;
  capacity = r.capacity;
  created_at = time_ptr r.created_at;
}

abbrev pub rooms_to_api : List Room → List ApiRoom
rooms_to_api items = map room_to_api items

unfoldable pub schedule_to_api : Schedule → ApiSchedule
schedule_to_api s = record {
  id = some s.id;
  room_id = s.room_id;
  days_of_week = s.days_of_week;
  start_time = s.start_time;
  end_time = s.end_time;
}

unfoldable pub slot_to_api : Slot → ApiSlot
slot_to_api s = record { room_id = s.room_id; start = utc s.start_at; end = utc s.end_at }

abbrev pub slots_to_api : List Slot → List ApiSlot
slots_to_api items = map slot_to_api items

unfoldable pub booking_to_api : Booking → ApiBooking
booking_to_api b = record {
  id = b.id;
  room_id = b.room_id;
  user_id = b.user_id;
  status = b.status;
  start_at = utc b.start_at;
  end_at = utc b.end_at;
  conference_link = b.conference_link;
  created_at = time_ptr b.created_at;
}

abbrev pub bookings_to_api : List Booking → List ApiBooking
bookings_to_api items = map booking_to_api items
