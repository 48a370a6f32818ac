-- ===== src/Http/Api.antt =====
-- The types of api/gen/types.gen.go that the handlers build, and the responses of
-- api/gen/server.gen.go: a status and a body.
use room_booking.Base.{ℕ, ℤ, List, Option, GoString, String, Bool}
use room_booking.Domain.Time.{Time}
use room_booking.Domain.Entities.{Uuid}
use room_booking.Storage.World.{World}

-- `ErrorResponseErrorCode`
pub data ErrorCode : Type 0 where
  booking_not_found forbidden internal_error invalid_request not_found room_not_found : ErrorCode
  schedule_exists slot_already_booked slot_not_found unauthorized : ErrorCode

pub record ApiBooking : Type 0 where
  pub conference_link : Option GoString
  pub created_at : Option Time
  pub end_at : Time
  pub id : Uuid
  pub room_id : Uuid
  pub start_at : Time
  pub status : GoString
  pub user_id : Uuid

pub record Pagination : Type 0 where
  pub page : ℤ
  pub page_size : ℤ
  pub total : ℕ

pub record ApiRoom : Type 0 where
  pub capacity : Option ℤ
  pub created_at : Option Time
  pub description : Option GoString
  pub id : Uuid
  pub name : GoString

pub record ApiSchedule : Type 0 where
  pub days_of_week : List ℤ
  pub end_time : GoString
  pub id : Option Uuid
  pub room_id : Uuid
  pub start_time : GoString

pub record ApiSlot : Type 0 where
  pub end : Time
  pub room_id : Uuid
  pub start : Time

pub record ApiUser : Type 0 where
  pub created_at : Option Time
  pub email : GoString
  pub id : Uuid
  pub role : GoString

-- The bodies of the responses; `plain_text` is what `http.Error` writes.
pub data Body : Type 0 where
  info : String → Body
  token : GoString → Body
  user : ApiUser → Body
  room : ApiRoom → Body
  rooms : List ApiRoom → Body
  schedule : ApiSchedule → Body
  slots : List ApiSlot → Body
  booking : ApiBooking → Body
  bookings : List ApiBooking → Body
  booking_page : List ApiBooking → Pagination → Body
  failed : ErrorCode → String → Body
  plain_text : GoString → Body

pub record Reply : Type 0 where
  pub status : ℕ
  pub body : Body

abbrev pub Served : Type 0
Served = World → Reply × World

-- The bodies of the requests; a body that is absent is none.
pub record LoginBody : Type 0 where
  pub email : GoString
  pub password : GoString

pub record RegisterBody : Type 0 where
  pub email : GoString
  pub password : GoString
  pub role : GoString

pub record BookingBody : Type 0 where
  pub create_conference_link : Option Bool
  pub room_id : Uuid
  pub start_at : Time

pub record RoomBody : Type 0 where
  pub capacity : Option ℤ
  pub description : Option GoString
  pub name : GoString

pub record ScheduleBody : Type 0 where
  pub days_of_week : List ℤ
  pub end_time : GoString
  pub room_id : Uuid
  pub start_time : GoString
