-- ===== src/Http/Responses/Rooms.antt =====
-- The responses of api/gen/server.gen.go for rooms, schedules and slots: one type for each operation, with a constructor
-- for each status that it documents, and its Visit method, which writes the status and the body.
-- The optional fields of a body are pointers that the handlers always set.
use room_booking.Base.{String, List}
use room_booking.Http.Api as Api
use room_booking.Http.Api.{ErrorCode, ApiRoom, ApiSchedule, ApiSlot, Reply}
use room_booking.Http.Errors.{error_reply, internal_error_reply}
use room_booking.Http.Handlers.{success}

pub data PostRoomsCreateResponse : Type 0 where
  json201 : ApiRoom → PostRoomsCreateResponse
  json400 : ErrorCode → String → PostRoomsCreateResponse
  json401 : ErrorCode → String → PostRoomsCreateResponse
  json403 : ErrorCode → String → PostRoomsCreateResponse
  json500 : String → PostRoomsCreateResponse

unfoldable pub visit_post_rooms_create : PostRoomsCreateResponse → Reply
visit_post_rooms_create (PostRoomsCreateResponse.json201 room) = success 201 (Api.room room)
visit_post_rooms_create (PostRoomsCreateResponse.json400 code message) =
    error_reply 400 code message
visit_post_rooms_create (PostRoomsCreateResponse.json401 code message) =
    error_reply 401 code message
visit_post_rooms_create (PostRoomsCreateResponse.json403 code message) =
    error_reply 403 code message
visit_post_rooms_create (PostRoomsCreateResponse.json500 message) = internal_error_reply message

pub data GetRoomsListResponse : Type 0 where
  json200 : List ApiRoom → GetRoomsListResponse
  json401 : ErrorCode → String → GetRoomsListResponse
  json500 : String → GetRoomsListResponse

unfoldable pub visit_get_rooms_list : GetRoomsListResponse → Reply
visit_get_rooms_list (GetRoomsListResponse.json200 rooms) = success 200 (Api.rooms rooms)
visit_get_rooms_list (GetRoomsListResponse.json401 code message) = error_reply 401 code message
visit_get_rooms_list (GetRoomsListResponse.json500 message) = internal_error_reply message

pub data PostRoomsScheduleCreateResponse : Type 0 where
  json201 : ApiSchedule → PostRoomsScheduleCreateResponse
  json400 : ErrorCode → String → PostRoomsScheduleCreateResponse
  json401 : ErrorCode → String → PostRoomsScheduleCreateResponse
  json403 : ErrorCode → String → PostRoomsScheduleCreateResponse
  json404 : ErrorCode → String → PostRoomsScheduleCreateResponse
  json409 : ErrorCode → String → PostRoomsScheduleCreateResponse
  json500 : String → PostRoomsScheduleCreateResponse

unfoldable pub visit_post_schedule_create : PostRoomsScheduleCreateResponse → Reply
visit_post_schedule_create (PostRoomsScheduleCreateResponse.json201 schedule) =
    success 201 (Api.schedule schedule)
visit_post_schedule_create (PostRoomsScheduleCreateResponse.json400 code message) =
    error_reply 400 code message
visit_post_schedule_create (PostRoomsScheduleCreateResponse.json401 code message) =
    error_reply 401 code message
visit_post_schedule_create (PostRoomsScheduleCreateResponse.json403 code message) =
    error_reply 403 code message
visit_post_schedule_create (PostRoomsScheduleCreateResponse.json404 code message) =
    error_reply 404 code message
visit_post_schedule_create (PostRoomsScheduleCreateResponse.json409 code message) =
    error_reply 409 code message
visit_post_schedule_create (PostRoomsScheduleCreateResponse.json500 message) =
    internal_error_reply message

pub data GetRoomsSlotsListResponse : Type 0 where
  json200 : List ApiSlot → GetRoomsSlotsListResponse
  json400 : ErrorCode → String → GetRoomsSlotsListResponse
  json401 : ErrorCode → String → GetRoomsSlotsListResponse
  json404 : ErrorCode → String → GetRoomsSlotsListResponse
  json500 : String → GetRoomsSlotsListResponse

unfoldable pub visit_get_slots_list : GetRoomsSlotsListResponse → Reply
visit_get_slots_list (GetRoomsSlotsListResponse.json200 slots) = success 200 (Api.slots slots)
visit_get_slots_list (GetRoomsSlotsListResponse.json400 code message) = error_reply 400 code message
visit_get_slots_list (GetRoomsSlotsListResponse.json401 code message) = error_reply 401 code message
visit_get_slots_list (GetRoomsSlotsListResponse.json404 code message) = error_reply 404 code message
visit_get_slots_list (GetRoomsSlotsListResponse.json500 message) = internal_error_reply message
