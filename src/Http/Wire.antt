-- ===== src/Http/Wire.antt =====
-- A request as the router of api/gen/server.gen.go hands it on, with its parameters and its body
-- still text, through the wrapper and the strict handler, behind the middleware of
-- internal/transport/http/server.go. How chi matches a path to a route is not modelled.
pub mod Binding
pub mod Strict
pub mod Decoding
pub mod Outcomes
use room_booking.Base.{List, [], Option, GoString}
use room_booking.Storage.World.{World}
use room_booking.Auth.Jwt.{Claims}
use room_booking.Http.Api.{Reply, Served}
use room_booking.Http.Middleware.{Client, LogLine, auth, logging}
use room_booking.Http.Server.{
  Endpoint, info, dummy_login, login, register, rooms_list, rooms_create, schedule_create,
  slots_list, bookings_create, bookings_list, bookings_my, bookings_cancel, Server, Readings,
  handle,
}
use room_booking.Http.Wire.Binding.{
  Binders, wrap_info, wrap_bookings_create, wrap_bookings_my, wrap_dummy_login, wrap_login,
  wrap_register, wrap_rooms_create, wrap_rooms_list, wrap_bookings_list, wrap_bookings_cancel,
  wrap_schedule_create, wrap_slots_list,
}
use room_booking.Http.Wire.Strict.{
  Decoders, strict_info, strict_bookings_list, strict_bookings_my, strict_bookings_cancel,
  strict_rooms_list, strict_slots_list, strict_bookings_create, strict_dummy_login, strict_login,
  strict_register, strict_rooms_create, strict_schedule_create,
}

-- The routes with what the client sent: the segments of the path, the query and the body.
pub data Route : Type 0 where
  get_info get_rooms_list get_bookings_my : Route
  post_dummy_login post_login post_register post_rooms_create post_bookings_create :
      (body : GoString) → Route
  post_schedule_create : (room body : GoString) → Route
  get_slots_list : (room query : GoString) → Route
  get_bookings_list : (query : GoString) → Route
  post_bookings_cancel : (id : GoString) → Route

-- A request: its path and method as they are logged, and what the middleware reads.
pub record Incoming : Type 0 where
  pub route : Route
  pub method : GoString
  pub path : GoString
  pub authorization : GoString
  pub client : Client
  pub readings : Readings

module _ (b : Binders) (d : Decoders) (s : Server) where
  -- The routes of `HandlerWithOptions`, without HandlerMiddlewares.
  unfoldable pub route_request : Readings → Route → Option Claims → Served
  route_request t get_info claims = wrap_info [] (strict_info (handle s t info claims))
  route_request t (post_bookings_create body) claims =
      wrap_bookings_create []
        (strict_bookings_create d (λ x. handle s t (bookings_create x) claims) body)
  route_request t (get_bookings_list query) claims =
      wrap_bookings_list [] b
        (strict_bookings_list (λ page page_size. handle s t (bookings_list page page_size) claims))
        query
  route_request t get_bookings_my claims =
      wrap_bookings_my [] (strict_bookings_my (handle s t bookings_my claims))
  route_request t (post_bookings_cancel id) claims =
      wrap_bookings_cancel [] b
        (strict_bookings_cancel (λ booking. handle s t (bookings_cancel booking) claims)) id
  route_request t (post_dummy_login body) claims =
      wrap_dummy_login [] (strict_dummy_login d (λ x. handle s t (dummy_login x) claims) body)
  route_request t (post_login body) claims =
      wrap_login [] (strict_login d (λ x. handle s t (login x) claims) body)
  route_request t (post_register body) claims =
      wrap_register [] (strict_register d (λ x. handle s t (register x) claims) body)
  route_request t (post_rooms_create body) claims =
      wrap_rooms_create [] (strict_rooms_create d (λ x. handle s t (rooms_create x) claims) body)
  route_request t get_rooms_list claims =
      wrap_rooms_list [] (strict_rooms_list (handle s t rooms_list claims))
  route_request t (post_schedule_create room body) claims =
      wrap_schedule_create [] b
        (λ id. strict_schedule_create d (λ k x. handle s t (schedule_create k x) claims) id body)
        room
  route_request t (get_slots_list room query) claims =
      wrap_slots_list [] b (strict_slots_list (λ id date. handle s t (slots_list id date) claims))
        room query

  abbrev pub authenticated : Incoming → Served
  authenticated r =
      auth s.jwt s.manager r.readings.checked_at r.path r.authorization
        (route_request r.readings r.route)

  -- The handler of `NewServer`, of requests on which nothing panics.
  unfoldable pub receive : Incoming → World → (Reply × LogLine) × World
  receive r = logging s.split_host r.client r.method r.path (authenticated r)
