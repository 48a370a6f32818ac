-- ===== src/Http/Server/Keeps.antt =====
-- Requests and the invariant of the database.
use room_booking.Base.{
  ℤ, List, [], ◌∷◌, Option, none, some, Bool, true, false, any, text_eq, not, has_prefix, codes,
  if◌then◌else◌, ◌==◌, pos,
}
use room_booking.Domain.Entities.{Uuid}
use room_booking.Domain.Codes.{role_admin}
use room_booking.Domain.Errors.{Result, ok, err}
use room_booking.Auth.Jwt.{Claims, parse}
use room_booking.Storage.World.{World, Action}
use room_booking.Storage.WellFormed.{WellFormed}
use room_booking.Storage.WellFormed.Worlds.{Keeps, lift-Keeps}
use room_booking.Storage.WellFormed.Repositories.{list_rooms-Keeps}
use room_booking.Service.Invariant.{
  create_schedule_call-Keeps, create_room_call-Keeps, list_slots_call-Keeps,
  create_booking_call-Keeps, cancel_booking_call-Keeps, list_my_call-Keeps, list_all_call-Keeps,
  register_call-Keeps, login_call-Keeps,
}
use room_booking.Service.RoomService as RoomService
use room_booking.Http.Api.{Reply, Served, ScheduleBody, RoomBody}
use room_booking.Http.Handlers.{
  Actor, reply, respond, on_actor, on_body, actor_from_context, normalized_name,
}
use room_booking.Http.Handlers.Auth.{
  get_info, post_dummy_login, post_register, post_login, dummy_login_reply, register_reply,
  login_reply,
}
use room_booking.Http.Handlers.Rooms.{
  get_rooms_list, post_rooms_create, post_schedule_create, get_slots_list, create_room, with_days,
  create_schedule_as, schedule_days_to_domain, room_reply, rooms_reply, schedule_reply, slots_reply,
}
use room_booking.Http.Handlers.Bookings.{
  post_bookings_create, get_bookings_my, get_bookings_list, post_bookings_cancel, or_default,
  created_reply, my_reply, page_reply, cancelled_reply,
}
use room_booking.Http.Middleware.{public_paths, parsed_token, auth, logging}
use room_booking.Http.Server.{
  Endpoint, Server, Readings, Request, handle, authorized, serve, serve_all, path_of, info,
  dummy_login, login, register, rooms_list, rooms_create, schedule_create, slots_list,
  bookings_create, bookings_list, bookings_my, bookings_cancel,
}

-- A handler that keeps the database well formed.
pub record ServedKeeps (s : Served) : Type 0 where
  pub keeps : (w : World) → WellFormed w.db → WellFormed (s w).1.db

reply-Keeps : {r : Reply} → ServedKeeps (reply r)
reply-Keeps = record { keeps = λ w h. h }

respond-Keeps :
    {A : Type 0} {m : Action A} (f : Result A → Reply) → Keeps m → ServedKeeps (respond m f)
respond-Keeps f k = record { keeps = λ w h. k.keeps w h }

if_served-Keeps :
    (test : Bool) {a b : Served}
    → ServedKeeps a
    → ServedKeeps b
    → ServedKeeps (if test then a else b)
if_served-Keeps true ka kb = ka
if_served-Keeps false ka kb = kb

on_actor-Keeps :
    (r : Result Actor) {k : Actor → Served}
    → ((a : Actor) → ServedKeeps (k a))
    → ServedKeeps (on_actor k r)
on_actor-Keeps (err e) h = reply-Keeps
on_actor-Keeps (ok a) h = h a

on_body-Keeps :
    {B : Type 0} (body : Option B) {k : B → Served}
    → ((b : B) → ServedKeeps (k b))
    → ServedKeeps (on_body k body)
on_body-Keeps none h = reply-Keeps
on_body-Keeps (some b) h = h b

module _ (s : Server) (t : Readings) (claims : Option Claims) where
  create_room-Served :
      (b : RoomBody) → ServedKeeps (create_room s.parse_uuid t.db_now t.new_id claims b)
  create_room-Served b = if_served-Keeps (text_eq (normalized_name b.name) (codes "")) reply-Keeps (
      on_actor-Keeps (actor_from_context s.parse_uuid claims) (λ actor.
        if_served-Keeps (not (text_eq actor.role role_admin)) reply-Keeps (
          respond-Keeps room_reply (
            create_room_call-Keeps t.db_now t.new_id (normalized_name b.name) b.description
              b.capacity))))

  with_days-Served :
      (room : Uuid) (b : ScheduleBody) (days : Option (List ℤ))
      → ServedKeeps (with_days s.parse_uuid s.map_order s.pg_time t.db_now t.new_id room b days)
  with_days-Served room b none = reply-Keeps
  with_days-Served room b (some days) = respond-Keeps schedule_reply (
      create_schedule_call-Keeps s.map_order s.pg_time t.db_now t.new_id room days b.start_time
        b.end_time)

  create_schedule-Served :
      (room : Uuid) (b : ScheduleBody) (actor : Actor)
      → ServedKeeps
          (create_schedule_as s.parse_uuid s.map_order s.pg_time t.db_now t.new_id room b actor)
  create_schedule-Served room b actor =
      if_served-Keeps (not (text_eq actor.role role_admin)) reply-Keeps (
        if_served-Keeps (not (b.room_id == room)) reply-Keeps
          (with_days-Served room b (schedule_days_to_domain b.days_of_week)))

  handle-Keeps : (e : Endpoint) → ServedKeeps (handle s t e claims)
  unfolding handle get_info post_dummy_login post_login post_register get_rooms_list
      post_rooms_create post_schedule_create get_slots_list post_bookings_create get_bookings_list
      get_bookings_my post_bookings_cancel RoomService.list
  handle-Keeps info = reply-Keeps
  handle-Keeps (dummy_login body) =
      on_body-Keeps body (λ role. respond-Keeps dummy_login_reply lift-Keeps)
  handle-Keeps (login none) = reply-Keeps
  handle-Keeps (login (some b)) = respond-Keeps login_reply (
      login_call-Keeps s.jwt s.bcrypt s.texts s.uuid_string s.manager t.now t.later b.email
        b.password)
  handle-Keeps (register body) = on_body-Keeps body (λ b. respond-Keeps register_reply (
      register_call-Keeps s.jwt s.bcrypt s.texts s.uuid_string s.manager t.db_now t.new_id b.email
        b.password b.role))
  handle-Keeps rooms_list = respond-Keeps rooms_reply list_rooms-Keeps
  handle-Keeps (rooms_create body) = on_body-Keeps body create_room-Served
  handle-Keeps (schedule_create room body) =
      on_body-Keeps body (λ b.
        on_actor-Keeps (actor_from_context s.parse_uuid claims) (create_schedule-Served room b))
  handle-Keeps (slots_list room date) =
      on_actor-Keeps (actor_from_context s.parse_uuid claims)
        (λ _. respond-Keeps slots_reply (list_slots_call-Keeps room date))
  handle-Keeps (bookings_create body) = on_body-Keeps body (λ b.
      on_actor-Keeps (actor_from_context s.parse_uuid claims) (λ actor.
        respond-Keeps created_reply (
          create_booking_call-Keeps t.now t.db_now t.new_id t.link_id actor.user_id actor.role
            b.room_id b.start_at (or_default false b.create_conference_link))))
  handle-Keeps (bookings_list page page_size) =
      on_actor-Keeps (actor_from_context s.parse_uuid claims) (λ actor.
        respond-Keeps (page_reply (or_default (pos 1) page) (or_default (pos 20) page_size)) (
          list_all_call-Keeps actor.role (or_default (pos 1) page) (or_default (pos 20) page_size)))
  handle-Keeps bookings_my =
      on_actor-Keeps (actor_from_context s.parse_uuid claims)
        (λ actor. respond-Keeps my_reply (list_my_call-Keeps t.now actor.user_id actor.role))
  handle-Keeps (bookings_cancel id) =
      on_actor-Keeps (actor_from_context s.parse_uuid claims) (λ actor.
        respond-Keeps cancelled_reply
          (cancel_booking_call-Keeps t.db_now actor.user_id actor.role id))

parsed_token-Keeps :
    (next : Option Claims → Served) (r : Result Claims)
    → ((claims : Option Claims) → ServedKeeps (next claims))
    → ServedKeeps (parsed_token next r)
parsed_token-Keeps next (err e) h = reply-Keeps
parsed_token-Keeps next (ok claims) h = h (some claims)

authorized-Keeps : (s : Server) (r : Request) → ServedKeeps (authorized s r)
unfolding auth
authorized-Keeps s r =
    if_served-Keeps (any (text_eq (path_of s.uuid_string r.endpoint)) public_paths)
      (handle-Keeps s r.readings none r.endpoint)
      (if_served-Keeps (not (has_prefix r.authorization (codes "Bearer "))) reply-Keeps (
        parsed_token-Keeps (handle s r.readings r.endpoint)
          (parse s.jwt s.manager r.readings.checked_at _)
          (λ claims. handle-Keeps s r.readings claims r.endpoint)))

-- Any sequence of requests to the server, whatever other clients write between their statements and
-- however the connection fails, leaves a well-formed database well formed.
pub serve_all-WellFormed :
    (s : Server) (requests : List Request) (w : World)
    → WellFormed w.db
    → WellFormed (serve_all s requests w).db
unfolding serve_all serve logging
serve_all-WellFormed s [] w h = h
serve_all-WellFormed s (r ∷ rs) w h =
    serve_all-WellFormed s rs (serve s r w).1 ((authorized-Keeps s r).keeps w h)
