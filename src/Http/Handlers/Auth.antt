-- ===== src/Http/Handlers/Auth.antt =====
-- internal/transport/http/auth_handler.go.
pub mod Refusals
use room_booking.Service.AuthService.{TextLibrary}
use room_booking.Base.{ℕ, ◌==◌, Option, none, some, [], ◌∷◌, GoString, Bool, if◌then◌else◌}
use room_booking.Domain.Time.{Time}
use room_booking.Domain.Entities.{Uuid, User}
use room_booking.Domain.Errors.{Result, ok, err}
use room_booking.Storage.World.{lift}
use room_booking.Auth.Jwt.{JwtLibrary, JwtManager}
use room_booking.Auth.Password.{BcryptLibrary}
use room_booking.Service.AuthService as AuthService
use room_booking.Http.Api as Api
use room_booking.Http.Api.{Reply, Served, LoginBody, RegisterBody}
use room_booking.Http.Errors.{map_domain_error, reply_of_error, error_reply, internal_error_reply}
use room_booking.Http.Mapper.{user_to_api}
use room_booking.Http.Handlers.{success, reply, respond, on_body}

unfoldable pub get_info : Served
get_info = reply (success 200 (Api.info "ok"))

abbrev pub dummy_login_reply : Result GoString → Reply
dummy_login_reply (ok token) = success 200 (Api.token token)
dummy_login_reply (err e) = reply_of_error (400 ∷ []) "failed to generate token" e

abbrev pub register_reply : Result User → Reply
register_reply (ok user) = success 201 (Api.user (user_to_api user))
register_reply (err e) = reply_of_error (400 ∷ []) "failed to register user" e

abbrev pub login_reply : Result GoString → Reply
login_reply (ok token) = success 200 (Api.token token)
login_reply (err e) =
    let api = map_domain_error e in
    if api.status == 401
    then error_reply 401 api.code api.message
    else if api.status == 400
    then error_reply 401 Api.unauthorized "invalid credentials"
    else internal_error_reply "failed to login"

module _ (jwt : JwtLibrary) (bcrypt : BcryptLibrary) (texts : TextLibrary)
    (uuid_string : Uuid → GoString) (manager : JwtManager) where
  unfoldable pub post_dummy_login : Time → Time → Option GoString → Served
  post_dummy_login now later body =
      on_body
        (λ role.
          respond
            (lift (AuthService.dummy_login jwt bcrypt texts uuid_string manager now later role))
            dummy_login_reply)
        body

  unfoldable pub post_register : ℕ → Uuid → Option RegisterBody → Served
  post_register db_now new_id body =
      on_body
        (λ b.
          respond
            (AuthService.register jwt bcrypt texts uuid_string manager db_now new_id b.email
              b.password b.role)
            register_reply)
        body

  unfoldable pub post_login : Time → Time → Option LoginBody → Served
  post_login now later none = reply (error_reply 401 Api.unauthorized "invalid credentials")
  post_login now later (some b) =
      respond (AuthService.login jwt bcrypt texts uuid_string manager now later b.email b.password)
        login_reply
