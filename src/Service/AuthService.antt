-- ===== src/Service/AuthService.antt =====
-- internal/service/auth_service.go. `uuid_string` is the method `String` of a UUID.
pub mod Tokens
pub mod RoundTrip
pub mod LoginSound
use room_booking.Base.{
  ℕ, ◌*◌, ℤ, pos, ◌==ℤ◌, GoString, codes, text_eq, trim_space, to_lower, Bool, not, ◌||◌,
  if◌then◌else◌,
}
use room_booking.Domain.Time.{Time, hour}
use room_booking.Domain.Entities.{Uuid, User}
use room_booking.Domain.Codes.{role_admin, role_user, role_id_by_code}
use room_booking.Domain.Errors.{
  Error, Result, ok, err, domain, errors_is, invalid_request, invalid_credentials, user_not_found,
}
use room_booking.Auth.Jwt.{JwtLibrary, JwtManager, generate}
use room_booking.Auth.Password.{BcryptLibrary, hash_password, check_password}
use room_booking.Storage.World.{World, Action, ◌>>=◌, ◌>>◌, pure, raise, lift, look}
use room_booking.Storage.UserRepository as UserRepository
use room_booking.Service.ScheduleService.{zero_time}

abbrev pub admin_user_id : GoString
admin_user_id = codes "11111111-1111-1111-1111-111111111111"

abbrev pub normal_user_id : GoString
normal_user_id = codes "22222222-2222-2222-2222-222222222222"

-- `24*time.Hour`
abbrev pub token_ttl : ℕ
token_ttl = 24 * hour

-- Whether `mail.ParseAddress` reads a text, and `strings.ToLower` of a text with bytes beyond ASCII,
-- which goes by the tables of Unicode.
pub record TextLibrary : Type 0 where
  pub valid_address : GoString → Bool
  pub lower_unicode : GoString → GoString

unfoldable pub normalize_email : TextLibrary → GoString → GoString
unfolding to_lower trim_space
normalize_email texts email = to_lower texts.lower_unicode (trim_space email)

unfoldable pub validate_credentials : TextLibrary → GoString → GoString → Result (Unit {0})
validate_credentials texts email password =
    if text_eq email (codes "") || text_eq password (codes "")
    then err (domain invalid_request)
    else if not (texts.valid_address email)
    then err (domain invalid_request)
    else if text_eq (trim_space password) (codes "")
    then err (domain invalid_request)
    else ok tt

-- The user that `Register` builds.
abbrev pub new_user : Uuid → GoString → ℤ → GoString → GoString → User
new_user id email role_id role password_hash = record {
  id = id;
  email = email;
  role_id = role_id;
  role = role;
  password_hash = password_hash;
  created_at = zero_time;
}

-- Any error becomes `ErrInvalidCredentials`.
abbrev pub hide : Result (Unit {0}) → Result (Unit {0})
hide (ok _) = ok tt
hide (err e) = err (domain invalid_credentials)

module _ (jwt : JwtLibrary) (bcrypt : BcryptLibrary) (texts : TextLibrary)
    (uuid_string : Uuid → GoString) (manager : JwtManager) where
  unfoldable pub dummy_login : Time → Time → GoString → Result GoString
  dummy_login now later role =
      if text_eq role role_admin
      then generate jwt manager now later admin_user_id role token_ttl
      else if text_eq role role_user
      then generate jwt manager now later normal_user_id role token_ttl
      else err (domain invalid_request)

  unfoldable pub register : ℕ → Uuid → GoString → GoString → GoString → Action User
  register db_now new_id email password role = do
    let address = normalize_email texts email
    lift (validate_credentials texts address password)
    let role_id = role_id_by_code role
    if role_id ==ℤ pos 0 then raise (domain invalid_request) else do
      password_hash ← lift (hash_password bcrypt password)
      UserRepository.create db_now (new_user new_id address role_id role password_hash)

  -- What follows the read of the user.
  abbrev pub from_user : Time → Time → GoString → Result User → Action GoString
  from_user now later password (err e) =
      if errors_is e user_not_found then raise (domain invalid_credentials) else raise e
  from_user now later password (ok user) =
      if text_eq user.password_hash (codes "") then raise (domain invalid_credentials) else do
        lift (hide (check_password bcrypt user.password_hash password))
        lift (generate jwt manager now later (uuid_string user.id) user.role token_ttl)

  unfoldable pub login : Time → Time → GoString → GoString → Action GoString
  login now later email password = do
    let address = normalize_email texts email
    lift (hide (validate_credentials texts address password))
    look (UserRepository.get_by_email address) (from_user now later password)
