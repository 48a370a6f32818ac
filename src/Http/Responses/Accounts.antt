-- ===== src/Http/Responses/Accounts.antt =====
-- The responses of api/gen/server.gen.go for info, tokens and users: one type for each operation, with a constructor
-- for each status that it documents, and its Visit method, which writes the status and the body.
-- The optional fields of a body are pointers that the handlers always set.
use room_booking.Base.{String, GoString}
use room_booking.Http.Api as Api
use room_booking.Http.Api.{ErrorCode, ApiUser, Reply}
use room_booking.Http.Errors.{error_reply, internal_error_reply}
use room_booking.Http.Handlers.{success}

pub data GetInfoResponse : Type 0 where
  json200 : String → GetInfoResponse

unfoldable pub visit_get_info : GetInfoResponse → Reply
visit_get_info (GetInfoResponse.json200 status) = success 200 (Api.info status)

pub data PostDummyLoginResponse : Type 0 where
  json200 : GoString → PostDummyLoginResponse
  json400 : ErrorCode → String → PostDummyLoginResponse
  json500 : String → PostDummyLoginResponse

unfoldable pub visit_post_dummy_login : PostDummyLoginResponse → Reply
visit_post_dummy_login (PostDummyLoginResponse.json200 token) = success 200 (Api.token token)
visit_post_dummy_login (PostDummyLoginResponse.json400 code message) = error_reply 400 code message
visit_post_dummy_login (PostDummyLoginResponse.json500 message) = internal_error_reply message

pub data PostLoginResponse : Type 0 where
  json200 : GoString → PostLoginResponse
  json401 : ErrorCode → String → PostLoginResponse
  json500 : String → PostLoginResponse

unfoldable pub visit_post_login : PostLoginResponse → Reply
visit_post_login (PostLoginResponse.json200 token) = success 200 (Api.token token)
visit_post_login (PostLoginResponse.json401 code message) = error_reply 401 code message
visit_post_login (PostLoginResponse.json500 message) = internal_error_reply message

pub data PostRegisterResponse : Type 0 where
  json201 : ApiUser → PostRegisterResponse
  json400 : ErrorCode → String → PostRegisterResponse
  json500 : String → PostRegisterResponse

unfoldable pub visit_post_register : PostRegisterResponse → Reply
visit_post_register (PostRegisterResponse.json201 user) = success 201 (Api.user user)
visit_post_register (PostRegisterResponse.json400 code message) = error_reply 400 code message
visit_post_register (PostRegisterResponse.json500 message) = internal_error_reply message
