-- ===== src/Tests/Requests.antt =====
-- Instances of the theorems on tokens and requests.
use room_booking.Base.{
  List, [], ◌∷◌, ◌++◌, none, some, codes, GoString, has_prefix, trim_prefix, text_eq, count_byte,
  leb, ◌&&◌, true, false, ◌≡◌, ◌⊎◌, inl, refl, arith,
}
use room_booking.Domain.Codes.{role_admin, role_user}
use room_booking.Domain.Errors.{ok, Error, wrap, domain, booking_not_found}
use room_booking.Auth.Jwt.{Claims, generate, parse}
use room_booking.Service.AuthService.{admin_user_id, normal_user_id, token_ttl, dummy_login}
use room_booking.Service.AuthService.Tokens.{claims_of, dummy_login-parse}
use room_booking.Storage.World.Quiet.{quiet}
use room_booking.Storage.WellFormed.{WellFormed}
use room_booking.Http.Errors.{map_domain_error}
use room_booking.Http.Errors.Laws.{root_status, map_domain_error-root}
use room_booking.Http.Middleware.{Client, sanitize_log_value}
use room_booking.Http.Middleware.Logs.{sanitize_log_value_count}
use room_booking.Http.Server.{
  Endpoint, Request, Readings, rooms_create, bookings_create, bookings_cancel, serve, serve_all,
}
use room_booking.Http.Server.Keeps.{serve_all-WellFormed}
use room_booking.Http.Server.Access.{token_of, serve-unauthorized}
use room_booking.Http.Server.Roles.{serve-other_role}
use room_booking.Storage.Tables.{failed, no_rows}
use room_booking.Service.AuthService.{normalize_email}
use room_booking.Http.Api.{LoginBody}
use room_booking.Http.Handlers.Auth.{post_login}
use room_booking.Http.Handlers.Auth.Refusals.{user_row, refused_login, post_login_refused}
use room_booking.Base.{to_lower, trim_space, trim_left, inr}
use room_booking.Tests.Data.{office, midnight, half_past, office-WellFormed}
use room_booking.Tests.Library.{toy_jwt, toy_jwt-JwtLaws, toy_server}

-- A token of the user 7, made at midnight for 24 hours.
abbrev user_claims : Claims
user_claims = claims_of midnight midnight (7 ∷ []) role_user token_ttl

abbrev user_token : GoString
user_token = 86400 ∷ 0 ∷ 1 ∷ 7 ∷ role_user

user_token_run :
    generate toy_jwt toy_server.manager midnight midnight (7 ∷ []) role_user token_ttl
    ≡ ok user_token
unfolding generate
user_token_run = refl

abbrev dummy_token : GoString
dummy_token = 86400 ∷ 0 ∷ 36 ∷ (normal_user_id ++ role_user)

dummy_login_run :
    dummy_login toy_jwt toy_server.bcrypt toy_server.texts toy_server.uuid_string toy_server.manager
      midnight midnight role_user
    ≡ ok dummy_token
unfolding dummy_login generate text_eq
dummy_login_run = refl

dummy_login-parse_example :
    ((role_user ≡ role_admin)
      × (parse toy_jwt toy_server.manager half_past dummy_token
          ≡ ok (claims_of midnight midnight admin_user_id role_user token_ttl)))
    ⊎ ((role_user ≡ role_user)
        × (parse toy_jwt toy_server.manager half_past dummy_token
            ≡ ok (claims_of midnight midnight normal_user_id role_user token_ttl)))
dummy_login-parse_example =
    dummy_login-parse toy_jwt toy_jwt-JwtLaws toy_server.manager toy_server.bcrypt toy_server.texts
      toy_server.uuid_string midnight midnight half_past role_user dummy_login_run (omega arith)

abbrev wrapped_error : Error
wrapped_error = wrap "cancel booking" (domain booking_not_found)

map_domain_error-root_example : (map_domain_error wrapped_error).status ≡ root_status wrapped_error
map_domain_error-root_example = map_domain_error-root wrapped_error

abbrev forged : GoString
forged = codes "agent" ++ (13 ∷ 10 ∷ codes "ip=1")

sanitize_log_value_count_example : count_byte 10 (sanitize_log_value forged) ≡ 0
sanitize_log_value_count_example = sanitize_log_value_count forged 10

abbrev browser : Client
browser = record {
  forwarded_for = [];
  real_ip = [];
  remote_addr = codes "10.0.0.1:80";
  user_agent = forged;
}

abbrev at_midnight : Readings
at_midnight = record {
  checked_at = midnight;
  now = midnight;
  later = midnight;
  db_now = 100;
  new_id = 6;
  link_id = codes "link";
}

abbrev request : Endpoint → GoString → Request
request endpoint authorization = record {
  endpoint = endpoint;
  authorization = authorization;
  client = browser;
  readings = at_midnight;
}

abbrev as_user : GoString
as_user = codes "Bearer " ++ user_token

abbrev new_room : Endpoint
new_room = rooms_create (some (record { capacity = none; description = none; name = codes "Red" }))

abbrev new_booking : Endpoint
new_booking =
    bookings_create
      (some (record { create_conference_link = some true; room_id = 1; start_at = half_past }))

user_bearer : has_prefix as_user (codes "Bearer ") ≡ true
unfolding has_prefix
user_bearer = refl

user_accepted : token_of toy_server (request new_room as_user) ≡ ok user_claims
unfolding parse has_prefix trim_prefix
user_accepted = refl

user_not_admin : text_eq role_user role_admin ≡ false
unfolding text_eq
user_not_admin = refl

serve-other_role_example :
    ((leb 400 (serve toy_server (request new_room as_user) (quiet office 3)).0.0.status
        && leb (serve toy_server (request new_room as_user) (quiet office 3)).0.0.status 403)
      ≡ true)
    × ((serve toy_server (request new_room as_user) (quiet office 3)).1 ≡ quiet office 3)
serve-other_role_example =
    serve-other_role toy_server (request new_room as_user) (quiet office 3) refl user_bearer
      user_accepted user_not_admin

no_bearer : has_prefix [] (codes "Bearer ") ≡ false
unfolding has_prefix
no_bearer = refl

serve-unauthorized_example :
    ((serve toy_server (request new_booking []) (quiet office 3)).0.0.status ≡ 401)
    × ((serve toy_server (request new_booking []) (quiet office 3)).1 ≡ quiet office 3)
serve-unauthorized_example =
    serve-unauthorized toy_server (request new_booking []) (quiet office 3) refl (inl no_bearer)

abbrev two_requests : List Request
two_requests = request new_booking as_user ∷ request (bookings_cancel 6) as_user ∷ []

serve_all-WellFormed_example : WellFormed (serve_all toy_server two_requests (quiet office 3)).db
serve_all-WellFormed_example =
    serve_all-WellFormed toy_server two_requests (quiet office 3) office-WellFormed

abbrev stranger : LoginBody
stranger = record { email = codes " Eve@example.com"; password = codes "guess" }

stranger_unknown :
    user_row (normalize_email toy_server.texts stranger.email) office ≡ failed no_rows
unfolding normalize_email to_lower trim_space trim_left text_eq
stranger_unknown = refl

post_login_refused_example :
    post_login toy_server.jwt toy_server.bcrypt toy_server.texts toy_server.uuid_string
      toy_server.manager midnight midnight
      (some stranger)
      (quiet office 3)
    ≡ (refused_login, quiet office 3)
post_login_refused_example =
    post_login_refused toy_server.jwt toy_server.bcrypt toy_server.texts toy_server.uuid_string
      toy_server.manager midnight midnight office 3 stranger (inr (inl stranger_unknown))
