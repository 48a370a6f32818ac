-- ===== src/Http/Responses/Operations/Accounts.antt =====
-- The handlers of info, tokens and users write the responses of their operations.
use room_booking.Service.AuthService.{TextLibrary}
use room_booking.Base.{
  ℕ, [], ◌∷◌, Option, none, some, GoString, String, Bool-cases, ◌==◌, refl, inl, inr,
}
use room_booking.Domain.Time.{Time}
use room_booking.Domain.Entities.{Uuid, User}
use room_booking.Domain.Errors.{Result, ok, err}
use room_booking.Auth.Jwt.{JwtLibrary, JwtManager}
use room_booking.Auth.Password.{BcryptLibrary}
use room_booking.Http.Api as Api
use room_booking.Http.Api.{LoginBody, RegisterBody, Reply}
use room_booking.Http.Errors.{map_domain_error, internal_error_reply}
use room_booking.Http.Handlers.Auth.{
  get_info, post_dummy_login, post_login, post_register, dummy_login_reply, login_reply,
  register_reply,
}
use room_booking.Http.Responses.Accounts.{
  GetInfoResponse, visit_get_info, PostDummyLoginResponse, visit_post_dummy_login,
  PostLoginResponse, visit_post_login, PostRegisterResponse, visit_post_register,
}
use room_booking.Http.Responses.Documented.{
  Visited, Status, Writes, error-Visited, reply-Writes, respond-Writes, on_body-Writes,
}

post_dummy_login_400 : Status visit_post_dummy_login 400
unfolding visit_post_dummy_login
post_dummy_login_400 code message = record {
  response = PostDummyLoginResponse.json400 code message;
  written = refl;
}

post_dummy_login_500 :
    (message : String) → Visited visit_post_dummy_login (internal_error_reply message)
unfolding visit_post_dummy_login
post_dummy_login_500 message = record {
  response = PostDummyLoginResponse.json500 message;
  written = refl;
}

post_login_401 : Status visit_post_login 401
unfolding visit_post_login
post_login_401 code message = record {
  response = PostLoginResponse.json401 code message;
  written = refl;
}

post_login_500 : (message : String) → Visited visit_post_login (internal_error_reply message)
unfolding visit_post_login
post_login_500 message = record { response = PostLoginResponse.json500 message; written = refl }

post_register_400 : Status visit_post_register 400
unfolding visit_post_register
post_register_400 code message = record {
  response = PostRegisterResponse.json400 code message;
  written = refl;
}

post_register_500 : (message : String) → Visited visit_post_register (internal_error_reply message)
unfolding visit_post_register
post_register_500 message = record {
  response = PostRegisterResponse.json500 message;
  written = refl;
}

pub get_info-Writes : Writes visit_get_info get_info
unfolding get_info visit_get_info
get_info-Writes = record {
  writes = λ w. record { response = GetInfoResponse.json200 "ok"; written = refl };
}

dummy_login_reply-Visited :
    (r : Result GoString) → Visited visit_post_dummy_login (dummy_login_reply r)
unfolding visit_post_dummy_login
dummy_login_reply-Visited (ok token) = record {
  response = PostDummyLoginResponse.json200 token;
  written = refl;
}
dummy_login_reply-Visited (err e) =
    error-Visited (400 ∷ []) "failed to generate token" e (post_dummy_login_400, tt)
      (post_dummy_login_500 _)

register_reply-Visited : (r : Result User) → Visited visit_post_register (register_reply r)
unfolding visit_post_register
register_reply-Visited (ok user) = record {
  response = PostRegisterResponse.json201 _;
  written = refl;
}
register_reply-Visited (err e) =
    error-Visited (400 ∷ []) "failed to register user" e (post_register_400, tt)
      (post_register_500 _)

login_reply-Visited : (r : Result GoString) → Visited visit_post_login (login_reply r)
unfolding visit_post_login
login_reply-Visited (ok token) = record {
  response = PostLoginResponse.json200 token;
  written = refl;
}
login_reply-Visited (err e) =
    let api = map_domain_error e in
    elim (Bool-cases (api.status == 401)) [
      | inl refused ↦ rw refused (post_login_401 api.code api.message)
      | inr other ↦ rw other (elim (Bool-cases (api.status == 400)) [
        | inl invalid ↦ rw invalid (post_login_401 Api.unauthorized "invalid credentials")
        | inr failed ↦ rw failed (post_login_500 _)
      ])
    ]

module _ (jwt : JwtLibrary) (bcrypt : BcryptLibrary) (texts : TextLibrary)
    (uuid_string : Uuid → GoString) (manager : JwtManager) where
  pub post_dummy_login-Writes :
      (now later : Time) (body : Option GoString)
      → Writes visit_post_dummy_login
          (post_dummy_login jwt bcrypt texts uuid_string manager now later body)
  unfolding post_dummy_login
  post_dummy_login-Writes now later body =
      on_body-Writes body post_dummy_login_400 (λ role. respond-Writes dummy_login_reply-Visited)

  pub post_register-Writes :
      (db_now : ℕ) (new_id : Uuid) (body : Option RegisterBody)
      → Writes visit_post_register
          (post_register jwt bcrypt texts uuid_string manager db_now new_id body)
  unfolding post_register
  post_register-Writes db_now new_id body =
      on_body-Writes body post_register_400 (λ b. respond-Writes register_reply-Visited)

  pub post_login-Writes :
      (now later : Time) (body : Option LoginBody)
      → Writes visit_post_login (post_login jwt bcrypt texts uuid_string manager now later body)
  unfolding post_login
  post_login-Writes now later none = reply-Writes (post_login_401 _ _)
  post_login-Writes now later (some b) = respond-Writes login_reply-Visited
