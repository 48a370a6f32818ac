-- ===== src/Http/Server/Roles.antt =====
-- The role that an endpoint asks for.
use room_booking.Base.{
  ℕ, ℤ, pos, Option, none, some, GoString, codes, Bool, true, false, text_eq, has_prefix, ◌≡◌, refl,
  ap, leb, ◌&&◌, ◌∙◌, if◌then◌else◌,
}
use room_booking.Domain.Time.{Time}
use room_booking.Domain.Entities.{Uuid}
use room_booking.Domain.Codes.{role_admin, role_user}
use room_booking.Domain.Errors.{Result, ok, err, domain, forbidden, errors_is}
use room_booking.Auth.Jwt.{Claims}
use room_booking.Storage.World.{World, Action}
use room_booking.Service.BookingService as BookingService
use room_booking.Http.Api.{Reply, Served}
use room_booking.Http.Errors.{map_domain_error, reply_of_error}
use room_booking.Http.Handlers.{
  Actor, reply, respond, on_actor, on_body, actor_of, actor_from_context, normalized_name,
}
use room_booking.Http.Handlers.Rooms.{post_rooms_create, post_schedule_create}
use room_booking.Http.Handlers.Bookings.{
  post_bookings_create, get_bookings_my, get_bookings_list, post_bookings_cancel, created_reply,
  my_reply, page_reply, cancelled_reply, or_default,
}
use room_booking.Http.Middleware.{logging}
use room_booking.Http.Server.{
  Endpoint, Server, Readings, Request, handle, serve, info, dummy_login, login, register,
  rooms_list, rooms_create, schedule_create, slots_list, bookings_create, bookings_list,
  bookings_my, bookings_cancel,
}
use room_booking.Http.Server.Access.{token_of, is_public, authorized-token}

-- The role that the API documents for an endpoint, if it asks for one.
abbrev pub required_role : Endpoint → Option GoString
required_role (rooms_create _) = some role_admin
required_role (schedule_create _ _) = some role_admin
required_role (bookings_list _ _) = some role_admin
required_role (bookings_create _) = some role_user
required_role bookings_my = some role_user
required_role (bookings_cancel _) = some role_user
required_role _ = none

-- A reply of a status from 400 to 403, and a world left as it was.
pub record Refuses (s : Served) : Type 0 where
  pub refuses :
      (w : World) → ((leb 400 (s w).0.status && leb (s w).0.status 403) ≡ true) × ((s w).1 ≡ w)

reply-Refuses : {r : Reply} → (leb 400 r.status && leb r.status 403) ≡ true → Refuses (reply r)
reply-Refuses h = record { refuses = λ w. (h, refl) }

-- A service that answers `ErrForbidden`, in a handler that passes it on.
forbidden-Refuses :
    {A : Type 0} (m : Action A) (f : Result A → Reply)
    → ((w : World) → m w ≡ (err (domain forbidden), w))
    → (f (err (domain forbidden))).status ≡ 403
    → Refuses (respond m f)
forbidden-Refuses m f h status = record {
  refuses = λ w. (rw (ap (λ p. (f p.0).status) (h w) ∙ status) refl, ap (λ p. p.1) (h w));
}

on_actor-Refuses :
    (claims : Claims) (id : Option Uuid) (k : Actor → Served)
    → ((user : Uuid) → Refuses (k (record { user_id = user; role = claims.role })))
    → Refuses (on_actor k (actor_of claims id))
on_actor-Refuses claims none k h = reply-Refuses refl
on_actor-Refuses claims (some id) k h = h id

on_body-Refuses :
    {B : Type 0} (body : Option B) {k : B → Served}
    → ((b : B) → Refuses (k b))
    → Refuses (on_body k body)
on_body-Refuses none h = reply-Refuses refl
on_body-Refuses (some b) h = h b

if-Refuses : (test : Bool) {a b : Served} → Refuses a → Refuses b → Refuses (if test then a else b)
if-Refuses true ra rb = ra
if-Refuses false ra rb = rb

create-forbidden :
    (now : Time) (db_now : ℕ) (new_id : Uuid) (link_id : GoString) (user : Uuid) (role : GoString)
    (room : Uuid) (start : Time) (link : Bool) (w : World)
    → text_eq role role_user ≡ false
    → BookingService.create now db_now new_id link_id user role room start link w
      ≡ (err (domain forbidden), w)
unfolding BookingService.create
create-forbidden now db_now new_id link_id user role room start link w h = rw h refl

cancel-forbidden :
    (db_now : ℕ) (user : Uuid) (role : GoString) (id : Uuid) (w : World)
    → text_eq role role_user ≡ false
    → BookingService.cancel db_now user role id w ≡ (err (domain forbidden), w)
unfolding BookingService.cancel
cancel-forbidden db_now user role id w h = rw h refl

list_my-forbidden :
    (now : Time) (user : Uuid) (role : GoString) (w : World)
    → text_eq role role_user ≡ false
    → BookingService.list_my now user role w ≡ (err (domain forbidden), w)
unfolding BookingService.list_my
list_my-forbidden now user role w h = rw h refl

list_all-forbidden :
    (role : GoString) (page page_size : ℤ) (w : World)
    → text_eq role role_admin ≡ false
    → BookingService.list_all role page page_size w ≡ (err (domain forbidden), w)
unfolding BookingService.list_all
list_all-forbidden role page page_size w h = rw h refl

asks-closed : (e : Endpoint) {role : GoString} → required_role e ≡ some role → is_public e ≡ false
asks-closed info h = absurd (cc)
asks-closed (dummy_login _) h = absurd (cc)
asks-closed (login _) h = absurd (cc)
asks-closed (register _) h = absurd (cc)
asks-closed rooms_list h = absurd (cc)
asks-closed (slots_list _ _) h = absurd (cc)
asks-closed (rooms_create _) h = refl
asks-closed (schedule_create _ _) h = refl
asks-closed (bookings_create _) h = refl
asks-closed (bookings_list _ _) h = refl
asks-closed bookings_my h = refl
asks-closed (bookings_cancel _) h = refl

module _ (s : Server) (t : Readings) (claims : Claims) where
  handle-Refuses :
      (e : Endpoint) {role : GoString}
      → required_role e ≡ some role
      → text_eq claims.role role ≡ false
      → Refuses (handle s t e (some claims))
  unfolding handle actor_from_context post_rooms_create post_schedule_create post_bookings_create
      get_bookings_list get_bookings_my post_bookings_cancel reply_of_error map_domain_error
      errors_is
  handle-Refuses info h other = absurd (cc)
  handle-Refuses (dummy_login _) h other = absurd (cc)
  handle-Refuses (login _) h other = absurd (cc)
  handle-Refuses (register _) h other = absurd (cc)
  handle-Refuses rooms_list h other = absurd (cc)
  handle-Refuses (slots_list _ _) h other = absurd (cc)
  handle-Refuses (rooms_create body) {role} h other =
      let not_admin : text_eq claims.role role_admin ≡ false = cc in
      on_body-Refuses body (λ b.
        if-Refuses (text_eq (normalized_name b.name) (codes "")) (reply-Refuses refl) (
          on_actor-Refuses claims (s.parse_uuid claims.user_id) _
            (λ user. rw not_admin (reply-Refuses refl))))
  handle-Refuses (schedule_create room body) h other =
      let not_admin : text_eq claims.role role_admin ≡ false = cc in
      on_body-Refuses body (λ b.
        on_actor-Refuses claims (s.parse_uuid claims.user_id) _
          (λ user. rw not_admin (reply-Refuses refl)))
  handle-Refuses (bookings_create body) h other =
      let not_user : text_eq claims.role role_user ≡ false = cc in
      on_body-Refuses body (λ b. on_actor-Refuses claims (s.parse_uuid claims.user_id) _ (λ user.
        forbidden-Refuses
          (BookingService.create t.now t.db_now t.new_id t.link_id user claims.role b.room_id
            b.start_at (or_default false b.create_conference_link))
          created_reply
          (λ w.
            create-forbidden t.now t.db_now t.new_id t.link_id user claims.role b.room_id b.start_at
              (or_default false b.create_conference_link) w not_user)
          refl))
  handle-Refuses (bookings_list page page_size) h other =
      let not_admin : text_eq claims.role role_admin ≡ false = cc in
      let p = or_default (pos 1) page in
      let size = or_default (pos 20) page_size in
      on_actor-Refuses claims (s.parse_uuid claims.user_id) _ (λ user.
        forbidden-Refuses (BookingService.list_all claims.role p size) (page_reply p size)
          (λ w. list_all-forbidden claims.role p size w not_admin) refl)
  handle-Refuses bookings_my h other =
      let not_user : text_eq claims.role role_user ≡ false = cc in
      on_actor-Refuses claims (s.parse_uuid claims.user_id) _ (λ user.
        forbidden-Refuses (BookingService.list_my t.now user claims.role) my_reply
          (λ w. list_my-forbidden t.now user claims.role w not_user) refl)
  handle-Refuses (bookings_cancel id) h other =
      let not_user : text_eq claims.role role_user ≡ false = cc in
      on_actor-Refuses claims (s.parse_uuid claims.user_id) _ (λ user.
        forbidden-Refuses (BookingService.cancel t.db_now user claims.role id) cancelled_reply
          (λ w. cancel-forbidden t.db_now user claims.role id w not_user) refl)

-- A request with a valid token of another role than its endpoint asks for is answered with a status
-- from 400 to 403, and nothing changes.
pub serve-other_role :
    (s : Server) (r : Request) (w : World) {role : GoString} {claims : Claims}
    → required_role r.endpoint ≡ some role
    → has_prefix r.authorization (codes "Bearer ") ≡ true
    → token_of s r ≡ ok claims
    → text_eq claims.role role ≡ false
    → ((leb 400 (serve s r w).0.0.status && leb (serve s r w).0.0.status 403) ≡ true)
      × ((serve s r w).1 ≡ w)
unfolding serve logging
serve-other_role s r w {claims} asks header valid other =
    rw (authorized-token s r (asks-closed r.endpoint asks) header valid)
      ((handle-Refuses s r.readings claims r.endpoint asks other).refuses w)
