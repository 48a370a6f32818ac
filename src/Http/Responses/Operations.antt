-- ===== src/Http/Responses/Operations.antt =====
-- Every operation of internal/transport/http answers with a response of api/gen/server.gen.go for
-- that operation, also behind the middleware for tokens.
pub mod Accounts
pub mod Rooms
pub mod Bookings
use room_booking.Base.{
  ℕ, Option, none, some, List, GoString, codes, ◌++◌, Bool, true, false, Bool-cases, any, text_eq,
  not, has_prefix, trim_prefix, ◌≡◌, inl, inr, refl, sym,
}
use mathlib.Core.Path.{subst}
use room_booking.Domain.Time.{Time}
use room_booking.Domain.Entities.{Uuid}
use room_booking.Domain.Errors.{Result, ok, err}
use room_booking.Storage.World.{World}
use room_booking.Auth.Jwt.{Claims, JwtLibrary, JwtManager, parse}
use room_booking.Http.Api.{Reply, Served}
use room_booking.Http.Middleware.{public_paths, parsed_token, auth, logging}
use room_booking.Http.Server.{
  Endpoint, info, dummy_login, login, register, rooms_list, rooms_create, schedule_create,
  slots_list, bookings_create, bookings_list, bookings_my, bookings_cancel, Server, Readings,
  Request, path_of, handle, authorized, serve,
}
use room_booking.Http.Responses.Accounts.{
  visit_get_info, visit_post_dummy_login, visit_post_login, visit_post_register,
}
use room_booking.Http.Responses.Rooms.{
  visit_get_rooms_list, visit_post_rooms_create, visit_post_schedule_create, visit_get_slots_list,
}
use room_booking.Http.Responses.Bookings.{
  visit_post_bookings_create, visit_get_bookings_list, visit_get_bookings_my,
  visit_post_bookings_cancel,
}
use room_booking.Http.Responses.Documented.{Visited, Status, Writes, reply-Writes, if-Writes}
use room_booking.Http.Responses.Operations.Accounts.{
  get_info-Writes, post_dummy_login-Writes, post_login-Writes, post_register-Writes,
}
use room_booking.Http.Responses.Operations.Rooms.{
  get_rooms_list-Writes, get_rooms_list_401, post_rooms_create-Writes, post_rooms_create_401,
  post_schedule_create-Writes, post_schedule_create_401, get_slots_list-Writes, get_slots_list_401,
}
use room_booking.Http.Responses.Operations.Bookings.{
  post_bookings_create-Writes, post_bookings_create_401, get_bookings_list-Writes,
  get_bookings_list_401, get_bookings_my-Writes, get_bookings_my_401, post_bookings_cancel-Writes,
  post_bookings_cancel_401,
}

-- The reply is a response that the operation documents.
abbrev pub Documented : Endpoint → Reply → Type 0
Documented info r = Visited visit_get_info r
Documented (dummy_login _) r = Visited visit_post_dummy_login r
Documented (login _) r = Visited visit_post_login r
Documented (register _) r = Visited visit_post_register r
Documented rooms_list r = Visited visit_get_rooms_list r
Documented (rooms_create _) r = Visited visit_post_rooms_create r
Documented (schedule_create _ _) r = Visited visit_post_schedule_create r
Documented (slots_list _ _) r = Visited visit_get_slots_list r
Documented (bookings_create _) r = Visited visit_post_bookings_create r
Documented (bookings_list _ _) r = Visited visit_get_bookings_list r
Documented bookings_my r = Visited visit_get_bookings_my r
Documented (bookings_cancel _) r = Visited visit_post_bookings_cancel r

parsed-Writes :
    {R : Type 0} {visit : R → Reply} {next : Option Claims → Served} (parsed : Result Claims)
    → Status visit 401
    → ((c : Option Claims) → Writes visit (next c))
    → Writes visit (parsed_token next parsed)
parsed-Writes (err e) unauthorized v = reply-Writes (unauthorized _ _)
parsed-Writes (ok claims) unauthorized v = v (some claims)

module _ (s : Server) (t : Readings) where
  auth-Writes :
      {R : Type 0} {visit : R → Reply} {next : Option Claims → Served} (e : Endpoint)
      (header : GoString)
      → Status visit 401
      → ((c : Option Claims) → Writes visit (next c))
      → Writes visit (auth s.jwt s.manager t.checked_at (path_of s.uuid_string e) header next)
  unfolding auth
  auth-Writes e header unauthorized v =
      if-Writes (any (text_eq (path_of s.uuid_string e)) public_paths) (v none) (
        if-Writes (not (has_prefix header (codes "Bearer "))) (reply-Writes (unauthorized _ _)) (
          parsed-Writes (parse s.jwt s.manager t.checked_at (trim_prefix header (codes "Bearer ")))
            unauthorized v))

  abbrev pub answered : Endpoint → GoString → Served
  answered e header =
      auth s.jwt s.manager t.checked_at (path_of s.uuid_string e) header (handle s t e)

  answered-Documented :
      (e : Endpoint) (header : GoString) (w : World) → Documented e (answered e header w).0
  unfolding handle auth text_eq
  answered-Documented info header w = get_info-Writes.writes w
  answered-Documented (dummy_login body) header w =
      (post_dummy_login-Writes s.jwt s.bcrypt s.texts s.uuid_string s.manager t.now t.later
          body).writes
        w
  answered-Documented (login body) header w =
      (post_login-Writes s.jwt s.bcrypt s.texts s.uuid_string s.manager t.now t.later body).writes w
  answered-Documented (register body) header w =
      (post_register-Writes s.jwt s.bcrypt s.texts s.uuid_string s.manager t.db_now t.new_id
          body).writes
        w
  answered-Documented rooms_list header w =
      (auth-Writes rooms_list header get_rooms_list_401 (λ c. get_rooms_list-Writes)).writes w
  answered-Documented (rooms_create body) header w =
      (auth-Writes (rooms_create body) header post_rooms_create_401
          (λ c. post_rooms_create-Writes s.parse_uuid t.db_now t.new_id c body)).writes
        w
  answered-Documented (schedule_create room body) header w =
      (auth-Writes (schedule_create room body) header post_schedule_create_401 (λ c.
          post_schedule_create-Writes s.parse_uuid s.map_order s.pg_time t.db_now t.new_id c room
            body)).writes
        w
  answered-Documented (slots_list room date) header w =
      (auth-Writes (slots_list room date) header get_slots_list_401
          (λ c. get_slots_list-Writes s.parse_uuid c room date)).writes
        w
  answered-Documented (bookings_create body) header w =
      (auth-Writes (bookings_create body) header post_bookings_create_401 (λ c.
          post_bookings_create-Writes s.parse_uuid t.now t.db_now t.new_id t.link_id c body)).writes
        w
  answered-Documented (bookings_list page page_size) header w =
      (auth-Writes (bookings_list page page_size) header get_bookings_list_401
          (λ c. get_bookings_list-Writes s.parse_uuid c page page_size)).writes
        w
  answered-Documented bookings_my header w =
      (auth-Writes bookings_my header get_bookings_my_401
          (λ c. get_bookings_my-Writes s.parse_uuid t.now c)).writes
        w
  answered-Documented (bookings_cancel id) header w =
      (auth-Writes (bookings_cancel id) header post_bookings_cancel_401
          (λ c. post_bookings_cancel-Writes s.parse_uuid t.db_now c id)).writes
        w

-- Every reply of the server to a request that was decoded, also a refusal by the middleware, is
-- what a response object of its operation in the generated code writes: a documented status with
-- its body.
pub serve-Documented :
    (s : Server) (r : Request) (w : World) → Documented r.endpoint (serve s r w).0.0
unfolding serve logging
serve-Documented s r w = answered-Documented s r.readings r.endpoint r.authorization w
