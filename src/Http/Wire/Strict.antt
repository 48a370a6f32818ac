-- ===== src/Http/Wire/Strict.antt =====
-- The strict handler of api/gen/server.gen.go: it decodes the JSON body, calls the handler and
-- writes its response. json.NewDecoder(r.Body).Decode is a parameter, `Decoders`: none is its
-- error, also for an empty body. The strict middlewares are nil.
use room_booking.Base.{ℤ, [], Option, none, some, GoString}
use room_booking.Domain.Time.{Time}
use room_booking.Domain.Entities.{Uuid}
use room_booking.Http.Api as Api
use room_booking.Http.Api.{
  Reply, Served, LoginBody, RegisterBody, RoomBody, ScheduleBody, BookingBody,
}
use room_booking.Http.Errors.{error_reply}
use room_booking.Http.Handlers.{reply}

pub record Decoders : Type 0 where
  pub dummy_login_body : GoString → Option GoString
  pub login_body : GoString → Option LoginBody
  pub register_body : GoString → Option RegisterBody
  pub room_body : GoString → Option RoomBody
  pub schedule_body : GoString → Option ScheduleBody
  pub booking_body : GoString → Option BookingBody

-- `handleStrictRequestError` of internal/transport/http/errors.go.
abbrev pub strict_request_error : Reply
strict_request_error = error_reply 400 Api.invalid_request "invalid request"

-- `handleStrictResponseError` of the same file.
abbrev pub strict_response_error : Reply
strict_response_error = error_reply 500 Api.internal_error "internal server error"

-- What a method of `StrictServerInterface` may return: a response object of its operation, with what
-- its Visit method writes, an object of another type, nil, or an error.
pub data Returned : Type 0 where
  response : Reply → Returned
  another_type no_response an_error : Returned

-- What is written of it; net/http answers 200 where a handler writes nothing.
abbrev pub finish : Returned → Reply
finish (response r) = r
finish another_type = strict_response_error
finish no_response = record { status = 200; body = Api.plain_text [] }
finish an_error = strict_response_error

-- The methods of `Handler` return a response object of their operation and never an error. An error
-- of Visit is one of the connection, after which the client reads nothing.
abbrev pub visited : Served → Served
visited handler w = let (r, w') = handler w in (finish (response r), w')

-- The test of the decoded body; the handler gets a pointer to it.
abbrev pub with_body : {B : Type 0} → (Option B → Served) → Option B → Served
with_body handler none = reply strict_request_error
with_body handler (some body) = visited (handler (some body))

abbrev pub strict_info : Served → Served
strict_info handler = visited handler

abbrev pub strict_bookings_list : (Option ℤ → Option ℤ → Served) → Option ℤ → Option ℤ → Served
strict_bookings_list handler page page_size = visited (handler page page_size)

abbrev pub strict_bookings_my : Served → Served
strict_bookings_my handler = visited handler

abbrev pub strict_bookings_cancel : (Uuid → Served) → Uuid → Served
strict_bookings_cancel handler id = visited (handler id)

abbrev pub strict_rooms_list : Served → Served
strict_rooms_list handler = visited handler

abbrev pub strict_slots_list : (Uuid → Time → Served) → Uuid → Time → Served
strict_slots_list handler room date = visited (handler room date)

module _ (d : Decoders) where
  abbrev pub strict_bookings_create : (Option BookingBody → Served) → GoString → Served
  strict_bookings_create handler text = with_body handler (d.booking_body text)

  abbrev pub strict_dummy_login : (Option GoString → Served) → GoString → Served
  strict_dummy_login handler text = with_body handler (d.dummy_login_body text)

  abbrev pub strict_login : (Option LoginBody → Served) → GoString → Served
  strict_login handler text = with_body handler (d.login_body text)

  abbrev pub strict_register : (Option RegisterBody → Served) → GoString → Served
  strict_register handler text = with_body handler (d.register_body text)

  abbrev pub strict_rooms_create : (Option RoomBody → Served) → GoString → Served
  strict_rooms_create handler text = with_body handler (d.room_body text)

  abbrev pub strict_schedule_create :
      (Uuid → Option ScheduleBody → Served) → Uuid → GoString → Served
  strict_schedule_create handler room text = with_body (handler room) (d.schedule_body text)
