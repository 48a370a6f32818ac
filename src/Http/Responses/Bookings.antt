-- ===== src/Http/Responses/Bookings.antt =====
-- The responses of api/gen/server.gen.go for bookings: one type for each operation, with a constructor
-- for each status that it documents, and its Visit method, which writes the status and the body.
-- The optional fields of a body are pointers that the handlers always set.
use room_booking.Base.{String, List}
use room_booking.Http.Api as Api
use room_booking.Http.Api.{ErrorCode, ApiBooking, Pagination, Reply}
use room_booking.Http.Errors.{error_reply, internal_error_reply}
use room_booking.Http.Handlers.{success}

pub data PostBookingsCreateResponse : Type 0 where
  json201 : ApiBooking → PostBookingsCreateResponse
  json400 : ErrorCode → String → PostBookingsCreateResponse
  json401 : ErrorCode → String → PostBookingsCreateResponse
  json403 : ErrorCode → String → PostBookingsCreateResponse
  json404 : ErrorCode → String → PostBookingsCreateResponse
  json409 : ErrorCode → String → PostBookingsCreateResponse
  json500 : String → PostBookingsCreateResponse

unfoldable pub visit_post_bookings_create : PostBookingsCreateResponse → Reply
visit_post_bookings_create (PostBookingsCreateResponse.json201 booking) =
    success 201 (Api.booking booking)
visit_post_bookings_create (PostBookingsCreateResponse.json400 code message) =
    error_reply 400 code message
visit_post_bookings_create (PostBookingsCreateResponse.json401 code message) =
    error_reply 401 code message
visit_post_bookings_create (PostBookingsCreateResponse.json403 code message) =
    error_reply 403 code message
visit_post_bookings_create (PostBookingsCreateResponse.json404 code message) =
    error_reply 404 code message
visit_post_bookings_create (PostBookingsCreateResponse.json409 code message) =
    error_reply 409 code message
visit_post_bookings_create (PostBookingsCreateResponse.json500 message) =
    internal_error_reply message

pub data GetBookingsListResponse : Type 0 where
  json200 : List ApiBooking → Pagination → GetBookingsListResponse
  json400 : ErrorCode → String → GetBookingsListResponse
  json401 : ErrorCode → String → GetBookingsListResponse
  json403 : ErrorCode → String → GetBookingsListResponse
  json500 : String → GetBookingsListResponse

unfoldable pub visit_get_bookings_list : GetBookingsListResponse → Reply
visit_get_bookings_list (GetBookingsListResponse.json200 bookings pagination) =
    success 200 (Api.booking_page bookings pagination)
visit_get_bookings_list (GetBookingsListResponse.json400 code message) =
    error_reply 400 code message
visit_get_bookings_list (GetBookingsListResponse.json401 code message) =
    error_reply 401 code message
visit_get_bookings_list (GetBookingsListResponse.json403 code message) =
    error_reply 403 code message
visit_get_bookings_list (GetBookingsListResponse.json500 message) = internal_error_reply message

pub data GetBookingsMyResponse : Type 0 where
  json200 : List ApiBooking → GetBookingsMyResponse
  json401 : ErrorCode → String → GetBookingsMyResponse
  json403 : ErrorCode → String → GetBookingsMyResponse
  json500 : String → GetBookingsMyResponse

unfoldable pub visit_get_bookings_my : GetBookingsMyResponse → Reply
visit_get_bookings_my (GetBookingsMyResponse.json200 bookings) = success 200 (Api.bookings bookings)
visit_get_bookings_my (GetBookingsMyResponse.json401 code message) = error_reply 401 code message
visit_get_bookings_my (GetBookingsMyResponse.json403 code message) = error_reply 403 code message
visit_get_bookings_my (GetBookingsMyResponse.json500 message) = internal_error_reply message

pub data PostBookingsCancelResponse : Type 0 where
  json200 : ApiBooking → PostBookingsCancelResponse
  json401 : ErrorCode → String → PostBookingsCancelResponse
  json403 : ErrorCode → String → PostBookingsCancelResponse
  json404 : ErrorCode → String → PostBookingsCancelResponse
  json500 : String → PostBookingsCancelResponse

unfoldable pub visit_post_bookings_cancel : PostBookingsCancelResponse → Reply
visit_post_bookings_cancel (PostBookingsCancelResponse.json200 booking) =
    success 200 (Api.booking booking)
visit_post_bookings_cancel (PostBookingsCancelResponse.json401 code message) =
    error_reply 401 code message
visit_post_bookings_cancel (PostBookingsCancelResponse.json403 code message) =
    error_reply 403 code message
visit_post_bookings_cancel (PostBookingsCancelResponse.json404 code message) =
    error_reply 404 code message
visit_post_bookings_cancel (PostBookingsCancelResponse.json500 message) =
    internal_error_reply message
