-- ===== src/Http/Handlers.antt =====
-- What the handlers of internal/transport/http share: handler.go.
pub mod Auth
pub mod Rooms
pub mod Bookings
use room_booking.Base.{ℕ, Option, none, some, GoString, trim_space}
use room_booking.Domain.Entities.{Uuid}
use room_booking.Domain.Errors.{Result, ok, err, plain, wrap}
use room_booking.Storage.World.{World, Action}
use room_booking.Auth.Jwt.{Claims}
use room_booking.Http.Api as Api
use room_booking.Http.Api.{Body, Reply, Served}
use room_booking.Http.Errors.{error_reply}

-- `actor`
pub record Actor : Type 0 where
  pub user_id : Uuid
  pub role : GoString

abbrev pub success : ℕ → Body → Reply
success status body = record { status = status; body = body }

-- A reply that leaves the world as it is.
abbrev pub reply : Reply → Served
reply r w = (r, w)

-- A call of a service and the reply made of its result.
abbrev pub respond : {A : Type 0} → Action A → (Result A → Reply) → Served
respond m f w = let (r, w') = m w in (f r, w')

-- `uuid.Parse` of the token's user.
abbrev pub actor_of : Claims → Option Uuid → Result Actor
actor_of claims none = err (wrap "parse user id from token" (plain "invalid UUID"))
actor_of claims (some id) = ok (record { user_id = id; role = claims.role })

unfoldable pub actor_from_context : (GoString → Option Uuid) → Option Claims → Result Actor
actor_from_context parse_uuid none = err (plain "claims not found in context")
actor_from_context parse_uuid (some claims) = actor_of claims (parse_uuid claims.user_id)

-- The part of a handler after `actorFromContext`: without an actor the reply is 401.
abbrev pub on_actor : (Actor → Served) → Result Actor → Served
on_actor k (err e) = reply (error_reply 401 Api.unauthorized "unauthorized")
on_actor k (ok a) = k a

-- The part of a handler after the test of the body: without a body the reply is 400.
abbrev pub on_body : {B : Type 0} → (B → Served) → Option B → Served
on_body k none = reply (error_reply 400 Api.invalid_request "invalid request")
on_body k (some body) = k body

abbrev pub normalized_name : GoString → GoString
normalized_name value = trim_space value
