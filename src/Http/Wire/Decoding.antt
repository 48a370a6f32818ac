-- ===== src/Http/Wire/Decoding.antt =====
-- A request is decoded and handled, or it is refused with 400 before any handler runs.
use room_booking.Base.{
  ℤ, Option, none, some, GoString, codes, text_eq, not, Bool-cases, ◌≡◌, inl, inr, refl, sym,
  if◌then◌else◌,
}
use mathlib.Core.Option
use mathlib.Core.Path.{subst}
use room_booking.Domain.Time.{Time}
use room_booking.Domain.Entities.{Uuid}
use room_booking.Auth.Jwt.{Claims}
use room_booking.Http.Api.{Reply, Served, ScheduleBody}
use room_booking.Http.Handlers.{reply}
use room_booking.Http.Server.{
  Endpoint, info, dummy_login, login, register, rooms_list, rooms_create, schedule_create,
  slots_list, bookings_create, bookings_list, bookings_my, bookings_cancel, Server, Readings,
  handle,
}
use room_booking.Http.Wire.Binding.{
  Bound, bound, unbound, Binders, on_bound, param_error, required_param, through,
  wrap_bookings_list, wrap_bookings_cancel, wrap_schedule_create, wrap_slots_list,
}
use room_booking.Http.Wire.Strict.{Decoders, with_body, strict_request_error}
use room_booking.Http.Wire.{
  Route, get_info, get_rooms_list, get_bookings_my, post_dummy_login, post_login, post_register,
  post_rooms_create, post_bookings_create, post_schedule_create, get_slots_list, get_bookings_list,
  post_bookings_cancel, route_request,
}

abbrev value : {A : Type 0} → Bound A → Option A
value (bound a) = some a
value (unbound text) = none

abbrev both : {A B C : Type 0} → (A → B → C) → Option A → Option B → Option C
both f (some a) (some b) = some (f a b)
both f _ _ = none

-- A parameter that must not be empty.
abbrev required : {A : Type 0} → GoString → Bound A → Option A
required text b = if not (text_eq text (codes "")) then value b else none

module _ (b : Binders) (d : Decoders) where
  -- What a client asks for, if all parts of the request can be read.
  abbrev pub endpoint_of : Route → Option Endpoint
  endpoint_of get_info = some info
  endpoint_of get_rooms_list = some rooms_list
  endpoint_of get_bookings_my = some bookings_my
  endpoint_of (post_dummy_login body) =
      Option.map (λ x. dummy_login (some x)) (d.dummy_login_body body)
  endpoint_of (post_login body) = Option.map (λ x. login (some x)) (d.login_body body)
  endpoint_of (post_register body) = Option.map (λ x. register (some x)) (d.register_body body)
  endpoint_of (post_rooms_create body) = Option.map (λ x. rooms_create (some x)) (d.room_body body)
  endpoint_of (post_bookings_create body) =
      Option.map (λ x. bookings_create (some x)) (d.booking_body body)
  endpoint_of (post_schedule_create room body) =
      both (λ id x. schedule_create id (some x)) (value (b.bind_uuid (codes "roomId") room))
        (d.schedule_body body)
  endpoint_of (get_slots_list room query) =
      both slots_list (value (b.bind_uuid (codes "roomId") room))
        (required (b.query_get query (codes "date")) (b.bind_date (codes "date") query))
  endpoint_of (get_bookings_list query) =
      both bookings_list (value (b.bind_integer (codes "page") query))
        (value (b.bind_integer (codes "pageSize") query))
  endpoint_of (post_bookings_cancel id) =
      Option.map bookings_cancel (value (b.bind_uuid (codes "bookingId") id))

module _ (s : Server) (t : Readings) (claims : Option Claims) where
  -- What is done with a request that can be read or not.
  pub data Decoded : Option Endpoint → Served → Type 0 where
    handled : (e : Endpoint) → Decoded (some e) (handle s t e claims)
    invalid : (r : Reply) → r.status ≡ 400 → Decoded none (reply r)

  body-Decoded :
      {B : Type 0} (k : B → Endpoint) (handler : Option B → Served) (o : Option B)
      → ((x : B) → handler (some x) ≡ handle s t (k x) claims)
      → Decoded (Option.map k o) (with_body handler o)
  body-Decoded k handler none same = invalid strict_request_error refl
  body-Decoded k handler (some x) same = subst (Decoded (some (k x))) (sym (same x)) (handled (k x))

  list-Decoded :
      (page size : Bound (Option ℤ))
      → Decoded (both bookings_list (value page) (value size)) (
          on_bound
            (codes "page")
            (λ p. on_bound (codes "pageSize") (λ q. handle s t (bookings_list p q) claims) size)
            page)
  list-Decoded (unbound text) (bound q) = invalid _ refl
  list-Decoded (unbound text) (unbound text') = invalid _ refl
  list-Decoded (bound p) (unbound text) = invalid _ refl
  list-Decoded (bound p) (bound q) = handled (bookings_list p q)

  cancel-Decoded :
      (id : Bound Uuid)
      → Decoded
          (Option.map bookings_cancel (value id))
          (on_bound (codes "bookingId") (λ k. handle s t (bookings_cancel k) claims) id)
  cancel-Decoded (unbound text) = invalid _ refl
  cancel-Decoded (bound k) = handled (bookings_cancel k)

  schedule-Decoded :
      (room : Bound Uuid) (o : Option ScheduleBody)
      → Decoded (both (λ id x. schedule_create id (some x)) (value room) o) (
          on_bound
            (codes "roomId")
            (λ id. with_body (λ x. handle s t (schedule_create id x) claims) o)
            room)
  schedule-Decoded (unbound text) none = invalid _ refl
  schedule-Decoded (unbound text) (some x) = invalid _ refl
  schedule-Decoded (bound k) none = invalid _ refl
  schedule-Decoded (bound k) (some x) = handled (schedule_create k (some x))

  -- The handler of the slot list, once the room is known.
  abbrev on_date : GoString → Bound Time → Uuid → Served
  on_date text date room =
      if not (text_eq text (codes ""))
      then on_bound (codes "date") (λ at. handle s t (slots_list room at) claims) date
      else reply (param_error (required_param (codes "date")))

  date-Decoded :
      (text : GoString) (date : Bound Time) (room : Uuid)
      → Decoded (both slots_list (some room) (required text date)) (on_date text date room)
  date-Decoded text (unbound e) room = elim (Bool-cases (text_eq text (codes ""))) [
    | inl empty ↦ rw empty (invalid _ refl)
    | inr given ↦ rw given (invalid _ refl)
  ]
  date-Decoded text (bound at) room = elim (Bool-cases (text_eq text (codes ""))) [
    | inl empty ↦ rw empty (invalid _ refl)
    | inr given ↦ rw given (handled (slots_list room at))
  ]

  slots-Decoded :
      (room : Bound Uuid) (text : GoString) (date : Bound Time)
      → Decoded
          (both slots_list (value room) (required text date))
          (on_bound (codes "roomId") (on_date text date) room)
  slots-Decoded (unbound e) text date = invalid _ refl
  slots-Decoded (bound k) text date = date-Decoded text date k

  pub route-Decoded :
      (b : Binders) (d : Decoders) (route : Route)
      → Decoded (endpoint_of b d route) (route_request b d s t route claims)
  unfolding route_request through wrap_bookings_list wrap_bookings_cancel wrap_schedule_create
      wrap_slots_list
  route-Decoded b d get_info = handled info
  route-Decoded b d get_rooms_list = handled rooms_list
  route-Decoded b d get_bookings_my = handled bookings_my
  route-Decoded b d (post_dummy_login body) =
      body-Decoded (λ x. dummy_login (some x)) (λ x. handle s t (dummy_login x) claims)
        (d.dummy_login_body body) (λ x. refl)
  route-Decoded b d (post_login body) =
      body-Decoded (λ x. login (some x)) (λ x. handle s t (login x) claims) (d.login_body body)
        (λ x. refl)
  route-Decoded b d (post_register body) =
      body-Decoded (λ x. register (some x)) (λ x. handle s t (register x) claims)
        (d.register_body body) (λ x. refl)
  route-Decoded b d (post_rooms_create body) =
      body-Decoded (λ x. rooms_create (some x)) (λ x. handle s t (rooms_create x) claims)
        (d.room_body body) (λ x. refl)
  route-Decoded b d (post_bookings_create body) =
      body-Decoded (λ x. bookings_create (some x)) (λ x. handle s t (bookings_create x) claims)
        (d.booking_body body) (λ x. refl)
  route-Decoded b d (post_schedule_create room body) =
      schedule-Decoded (b.bind_uuid (codes "roomId") room) (d.schedule_body body)
  route-Decoded b d (get_slots_list room query) =
      slots-Decoded (b.bind_uuid (codes "roomId") room) (b.query_get query (codes "date"))
        (b.bind_date (codes "date") query)
  route-Decoded b d (get_bookings_list query) =
      list-Decoded (b.bind_integer (codes "page") query) (b.bind_integer (codes "pageSize") query)
  route-Decoded b d (post_bookings_cancel id) = cancel-Decoded (b.bind_uuid (codes "bookingId") id)
