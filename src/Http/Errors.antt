-- ===== src/Http/Errors.antt =====
-- internal/transport/http/errors.go.
pub mod Laws
use room_booking.Base.{ℕ, String, List, [], ◌∷◌, any, ◌==◌, if◌then◌else◌}
use room_booking.Domain.Errors.{
  Error, errors_is, invalid_request, email_taken, invalid_credentials, forbidden, room_not_found,
  slot_not_found, booking_not_found, slot_already_booked, schedule_exists,
}
use room_booking.Http.Api as Api
use room_booking.Http.Api.{ErrorCode, Reply}

pub record ApiError : Type 0 where
  pub status : ℕ
  pub code : ErrorCode
  pub message : String

-- A response whose body is `newErrorResponse(code, message)`.
abbrev pub error_reply : ℕ → ErrorCode → String → Reply
error_reply status code message = record { status = status; body = Api.failed code message }

-- A 500 response whose body is `newInternalErrorResponse(message)`.
abbrev pub internal_error_reply : String → Reply
internal_error_reply message = error_reply 500 Api.internal_error message

abbrev pub api_error : ℕ → ErrorCode → String → ApiError
api_error status code message = record { status = status; code = code; message = message }

unfoldable pub map_domain_error : Error → ApiError
unfolding errors_is
map_domain_error e =
    if errors_is e invalid_request
    then api_error 400 Api.invalid_request "invalid request"
    else if errors_is e email_taken
    then api_error 400 Api.invalid_request "email is already taken"
    else if errors_is e invalid_credentials
    then api_error 401 Api.unauthorized "invalid credentials"
    else if errors_is e forbidden
    then api_error 403 Api.forbidden "forbidden"
    else if errors_is e room_not_found
    then api_error 404 Api.room_not_found "room not found"
    else if errors_is e slot_not_found
    then api_error 404 Api.slot_not_found "slot not found"
    else if errors_is e booking_not_found
    then api_error 404 Api.booking_not_found "booking not found"
    else if errors_is e slot_already_booked
    then api_error 409 Api.slot_already_booked "slot is already booked"
    else if errors_is e schedule_exists
    then api_error 409 Api.schedule_exists
        "schedule for this room already exists and cannot be changed"
    else api_error 500 Api.internal_error "internal server error"

-- `switch apiErr.Status` with a case for each of the statuses, that answers with the error's code
-- and message, and a default of 500 with the given message.
unfoldable pub reply_of_error : List ℕ → String → Error → Reply
reply_of_error statuses message e =
    let api = map_domain_error e in
    if any (λ s. s == api.status) statuses
    then error_reply api.status api.code api.message
    else internal_error_reply message
