-- ===== src/Tests/Accounts.antt =====
-- An instance of the theorem on registering and logging in.
use room_booking.Base.{
  pos, [], ◌∷◌, ◌++◌, GoString, some, codes, text_eq, to_lower, trim_space, trim_left, ◌≡◌, refl,
}
use room_booking.Domain.Entities.{User}
use room_booking.Domain.Codes.{role_user, role_id_by_code, role_code_by_id}
use room_booking.Domain.Errors.{ok}
use room_booking.Auth.Jwt.{generate}
use room_booking.Auth.Password.{hash_password, check_password}
use room_booking.Storage.Tables.{Database}
use room_booking.Storage.Statements.{insert_user, select_user_by_email}
use room_booking.Storage.World.{World, from_timestamptz, run_sql, on_result}
use room_booking.Storage.World.Quiet.{quiet}
use room_booking.Storage.UserRepository as UserRepository
use room_booking.Storage.UserRepository.{user_of_row}
use room_booking.Service.AuthService.{
  register, login, normalize_email, validate_credentials, token_ttl,
}
use room_booking.Service.AuthService.RoundTrip.{user_row_of, login-register}
use room_booking.Service.AuthService.Tokens.{claims_of}
use room_booking.Service.AuthService.LoginSound.{IsLogin}
use room_booking.Http.Handlers.{actor_from_context}
use room_booking.Http.Server.{Request, bookings_my, handle, serve}
use room_booking.Http.Server.Sessions.{serve-login}
use room_booking.Tests.Data.{office, midnight, half_past}
use room_booking.Tests.Library.{
  toy_jwt, toy_jwt-JwtLaws, toy_bcrypt, toy_bcrypt-BcryptLaws, toy_server,
}

-- The user 9 registers, and logs in with the address in another spelling.
abbrev bob : User
bob = record {
  id = 9;
  email = codes "bob@example.com";
  role_id = pos 2;
  role = role_user;
  password_hash = codes "$secret";
  created_at = from_timestamptz 3 100;
}

abbrev office_of_bob : Database
office_of_bob = record office {
  users =
      user_row_of toy_jwt toy_bcrypt toy_server.texts toy_server.uuid_string toy_server.manager
        office 3 100 9 (codes " Bob@example.com") (codes "secret") role_user (codes "$secret")
      ∷ office.users;
}

register_run :
    register toy_jwt toy_bcrypt toy_server.texts toy_server.uuid_string toy_server.manager 100 9
      (codes " Bob@example.com")
      (codes "secret")
      role_user
      (quiet office 3)
    ≡ (ok bob, quiet office_of_bob 3)
unfolding register validate_credentials text_eq normalize_email role_id_by_code hash_password
    UserRepository.create on_result run_sql insert_user user_of_row role_code_by_id
register_run = refl

bob_spelled :
    normalize_email toy_server.texts (codes "BOB@example.com ")
    ≡ normalize_email toy_server.texts (codes " Bob@example.com")
unfolding normalize_email to_lower trim_space trim_left
bob_spelled = refl

login-register_example :
    login toy_jwt toy_bcrypt toy_server.texts toy_server.uuid_string toy_server.manager midnight
      midnight
      (codes "BOB@example.com ")
      (codes "secret")
      (quiet office_of_bob 3)
    ≡ (
      generate toy_jwt toy_server.manager midnight midnight (9 ∷ []) role_user token_ttl,
      quiet office_of_bob 3,
    )
login-register_example =
    login-register toy_jwt toy_bcrypt toy_server.texts toy_server.uuid_string toy_server.manager
      office 3 100 9 (codes " Bob@example.com") (codes "secret") role_user toy_bcrypt-BcryptLaws
      midnight midnight (codes "BOB@example.com ") register_run bob_spelled

-- No-break spaces and wide spaces are trimmed too.
trimmed_wide : trim_space (194 ∷ 160 ∷ 97 ∷ 32 ∷ 98 ∷ 226 ∷ 128 ∷ 131 ∷ 9 ∷ []) ≡ 97 ∷ 32 ∷ 98 ∷ []
unfolding trim_space trim_left
trimmed_wide = refl

-- The user logs in at midnight, and asks for the own bookings at half past nine.
abbrev bob_world : World
bob_world = quiet office_of_bob 3

abbrev bob_token : GoString
bob_token = 86400 ∷ 0 ∷ 1 ∷ 9 ∷ role_user

abbrev bob_asks : Request
bob_asks = record {
  endpoint = bookings_my;
  authorization = codes "Bearer " ++ bob_token;
  client = record { forwarded_for = []; real_ip = []; remote_addr = []; user_agent = [] };
  readings = record {
    checked_at = half_past;
    now = half_past;
    later = half_past;
    db_now = 100;
    new_id = 6;
    link_id = [];
  };
}

bob_logs_in :
    (login toy_jwt toy_bcrypt toy_server.texts toy_server.uuid_string toy_server.manager midnight
      midnight
      (codes "bob@example.com")
      (codes "secret")
      bob_world).0
    ≡ ok bob_token
unfolding login generate normalize_email validate_credentials to_lower trim_space trim_left text_eq
    check_password UserRepository.get_by_email select_user_by_email on_result run_sql user_of_row
    role_code_by_id role_id_by_code
bob_logs_in = refl

serve-login_example :
    (l : IsLogin toy_jwt toy_bcrypt toy_server.texts toy_server.uuid_string toy_server.manager
      midnight midnight
      (codes "bob@example.com")
      (codes "secret")
      bob_token
      (login toy_jwt toy_bcrypt toy_server.texts toy_server.uuid_string toy_server.manager midnight
        midnight
        (codes "bob@example.com")
        (codes "secret")
        bob_world).1.db)
    × (actor_from_context toy_server.parse_uuid (
          some (
            claims_of midnight midnight
              (toy_server.uuid_string l.row.id)
              (role_code_by_id l.row.role_id)
              token_ttl))
        ≡ ok (record { user_id = l.row.id; role = role_code_by_id l.row.role_id }))
    × (((serve toy_server bob_asks bob_world).0.0, (serve toy_server bob_asks bob_world).1)
        ≡ handle toy_server bob_asks.readings bookings_my
            (some (
              claims_of midnight midnight
                (toy_server.uuid_string l.row.id)
                (role_code_by_id l.row.role_id)
                token_ttl))
            bob_world)
serve-login_example =
    serve-login toy_server toy_jwt-JwtLaws (λ id. refl) midnight midnight (codes "bob@example.com")
      (codes "secret") bob_world bob_asks bob_world bob_logs_in refl refl
