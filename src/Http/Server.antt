-- ===== src/Http/Server.antt =====
-- internal/transport/http/server.go: the router of api/gen/server.gen.go behind the middleware.
-- A request stands after routing and decoding, which Http/Wire models.
pub mod Keeps
pub mod Access
pub mod Sessions
pub mod Roles
use room_booking.Service.AuthService.{TextLibrary}
use room_booking.Base.{ℕ, ℤ, List, [], ◌∷◌, Option, none, GoString, codes, ◌++◌, Bool}
use room_booking.Domain.Time.{Time}
use room_booking.Domain.Entities.{Uuid}
use room_booking.Auth.Jwt.{Claims, JwtLibrary, JwtManager}
use room_booking.Auth.Password.{BcryptLibrary}
use room_booking.Storage.World.{World}
use room_booking.Http.Api.{
  Reply, Served, LoginBody, RegisterBody, BookingBody, RoomBody, ScheduleBody,
}
use room_booking.Http.Handlers.Auth.{get_info, post_dummy_login, post_register, post_login}
use room_booking.Http.Handlers.Rooms.{
  get_rooms_list, post_rooms_create, post_schedule_create, get_slots_list,
}
use room_booking.Http.Handlers.Bookings.{
  post_bookings_create, get_bookings_my, get_bookings_list, post_bookings_cancel,
}
use room_booking.Http.Middleware.{Client, LogLine, auth, logging}

-- A request that the router has matched, with its parameters and its body.
pub data Endpoint : Type 0 where
  info : Endpoint
  dummy_login : Option GoString → Endpoint
  login : Option LoginBody → Endpoint
  register : Option RegisterBody → Endpoint
  rooms_list : Endpoint
  rooms_create : Option RoomBody → Endpoint
  schedule_create : Uuid → Option ScheduleBody → Endpoint
  slots_list : Uuid → Time → Endpoint
  bookings_create : Option BookingBody → Endpoint
  bookings_list : Option ℤ → Option ℤ → Endpoint
  bookings_my : Endpoint
  bookings_cancel : Uuid → Endpoint

-- What the server is built with: its libraries and the manager of its tokens.
pub record Server : Type 0 where
  pub jwt : JwtLibrary
  pub bcrypt : BcryptLibrary
  pub texts : TextLibrary
  pub uuid_string : Uuid → GoString
  pub parse_uuid : GoString → Option Uuid
  pub map_order : List ℤ → List ℤ
  pub pg_time : GoString → Option ℕ
  pub split_host : GoString → Option GoString
  pub manager : JwtManager

-- What a request reads of the clocks and of the generator of UUIDs.
pub record Readings : Type 0 where
  pub checked_at : Time
  pub now : Time
  pub later : Time
  pub db_now : ℕ
  pub new_id : Uuid
  pub link_id : GoString

pub record Request : Type 0 where
  pub endpoint : Endpoint
  pub authorization : GoString
  pub client : Client
  pub readings : Readings

abbrev pub method_of : Endpoint → GoString
method_of info = codes "GET"
method_of rooms_list = codes "GET"
method_of (slots_list _ _) = codes "GET"
method_of (bookings_list _ _) = codes "GET"
method_of bookings_my = codes "GET"
method_of (dummy_login _) = codes "POST"
method_of (login _) = codes "POST"
method_of (register _) = codes "POST"
method_of (rooms_create _) = codes "POST"
method_of (schedule_create _ _) = codes "POST"
method_of (bookings_create _) = codes "POST"
method_of (bookings_cancel _) = codes "POST"

abbrev pub path_of : (Uuid → GoString) → Endpoint → GoString
path_of uuid_string info = codes "/_info"
path_of uuid_string (dummy_login _) = codes "/dummyLogin"
path_of uuid_string (login _) = codes "/login"
path_of uuid_string (register _) = codes "/register"
path_of uuid_string rooms_list = codes "/rooms/list"
path_of uuid_string (rooms_create _) = codes "/rooms/create"
path_of uuid_string (schedule_create room _) =
    codes "/rooms/" ++ (uuid_string room ++ codes "/schedule/create")
path_of uuid_string (slots_list room _) =
    codes "/rooms/" ++ (uuid_string room ++ codes "/slots/list")
path_of uuid_string (bookings_create _) = codes "/bookings/create"
path_of uuid_string (bookings_list _ _) = codes "/bookings/list"
path_of uuid_string bookings_my = codes "/bookings/my"
path_of uuid_string (bookings_cancel id) = codes "/bookings/" ++ (uuid_string id ++ codes "/cancel")

-- The handler of an endpoint.
unfoldable pub handle : Server → Readings → Endpoint → Option Claims → Served
handle s t info claims = get_info
handle s t (dummy_login body) claims =
    post_dummy_login s.jwt s.bcrypt s.texts s.uuid_string s.manager t.now t.later body
handle s t (login body) claims =
    post_login s.jwt s.bcrypt s.texts s.uuid_string s.manager t.now t.later body
handle s t (register body) claims =
    post_register s.jwt s.bcrypt s.texts s.uuid_string s.manager t.db_now t.new_id body
handle s t rooms_list claims = get_rooms_list
handle s t (rooms_create body) claims = post_rooms_create s.parse_uuid t.db_now t.new_id claims body
handle s t (schedule_create room body) claims =
    post_schedule_create s.parse_uuid s.map_order s.pg_time t.db_now t.new_id claims room body
handle s t (slots_list room date) claims = get_slots_list s.parse_uuid claims room date
handle s t (bookings_create body) claims =
    post_bookings_create s.parse_uuid t.now t.db_now t.new_id t.link_id claims body
handle s t (bookings_list page page_size) claims =
    get_bookings_list s.parse_uuid claims page page_size
handle s t bookings_my claims = get_bookings_my s.parse_uuid t.now claims
handle s t (bookings_cancel id) claims = post_bookings_cancel s.parse_uuid t.db_now claims id

-- A request through the middleware, without its line in the log.
abbrev pub authorized : Server → Request → Served
authorized s r =
    auth s.jwt s.manager r.readings.checked_at (path_of s.uuid_string r.endpoint) r.authorization
      (handle s r.readings r.endpoint)

unfoldable pub serve : Server → Request → World → (Reply × LogLine) × World
serve s r =
    logging s.split_host r.client (method_of r.endpoint) (path_of s.uuid_string r.endpoint)
      (authorized s r)

-- The world after requests served one after the other.
unfoldable pub serve_all : Server → List Request → World → World
unfolding serve
serve_all s [] w = w
serve_all s (r ∷ rs) w = serve_all s rs (serve s r w).1
