-- ===== src/Http/Handlers/Rooms.antt =====
-- internal/transport/http: room_handler.go, schedule_handler.go and slot_handler.go.
use room_booking.Base.{
  ℕ, ℤ, pos, ltb_ℤ, ◌==◌, Option, none, some, List, [], ◌∷◌, GoString, codes, text_eq, not, ◌||◌,
  if◌then◌else◌,
}
use room_booking.Domain.Time.{Time}
use room_booking.Domain.Entities.{Uuid, Room, Schedule, Slot}
use room_booking.Domain.Codes.{role_admin}
use room_booking.Domain.Errors.{Result, ok, err}
use room_booking.Auth.Jwt.{Claims}
use room_booking.Service.RoomService as RoomService
use room_booking.Service.ScheduleService as ScheduleService
use room_booking.Service.SlotService as SlotService
use room_booking.Http.Api as Api
use room_booking.Http.Api.{Reply, Served, RoomBody, ScheduleBody}
use room_booking.Http.Errors.{reply_of_error, error_reply, internal_error_reply}
use room_booking.Http.Mapper.{room_to_api, rooms_to_api, schedule_to_api, slots_to_api}
use room_booking.Http.Handlers.{
  Actor, success, reply, respond, actor_from_context, on_actor, on_body, normalized_name,
}

abbrev pub rooms_reply : Result (List Room) → Reply
rooms_reply (ok rooms) = success 200 (Api.rooms (rooms_to_api rooms))
rooms_reply (err e) = internal_error_reply "failed to list rooms"

unfoldable pub get_rooms_list : Served
get_rooms_list = respond RoomService.list rooms_reply

abbrev pub room_reply : Result Room → Reply
room_reply (ok room) = success 201 (Api.room (room_to_api room))
room_reply (err e) = reply_of_error (400 ∷ 403 ∷ []) "failed to create room" e

abbrev pub create_room_as : ℕ → Uuid → RoomBody → Actor → Served
create_room_as db_now new_id b actor =
    if not (text_eq actor.role role_admin)
    then reply (error_reply 403 Api.forbidden "forbidden")
    else respond
        (RoomService.create db_now new_id (normalized_name b.name) b.description b.capacity)
        room_reply

-- `scheduleDaysToDomain`
unfoldable pub schedule_days_to_domain : List ℤ → Option (List ℤ)
schedule_days_to_domain [] = some []
schedule_days_to_domain (day ∷ days) =
    let rest = schedule_days_to_domain days in
    if ltb_ℤ day (pos 1) || ltb_ℤ (pos 7) day
    then none
    else elim rest [ none ↦ none | some ds ↦ some (day ∷ ds) ]

abbrev pub schedule_reply : Result Schedule → Reply
schedule_reply (ok schedule) = success 201 (Api.schedule (schedule_to_api schedule))
schedule_reply (err e) = reply_of_error (400 ∷ 403 ∷ 404 ∷ 409 ∷ []) "failed to create schedule" e

abbrev pub slots_reply : Result (List Slot) → Reply
slots_reply (ok slots) = success 200 (Api.slots (slots_to_api slots))
slots_reply (err e) = reply_of_error (400 ∷ 404 ∷ []) "failed to list slots" e

module _ (parse_uuid : GoString → Option Uuid) where
  abbrev pub create_room : ℕ → Uuid → Option Claims → RoomBody → Served
  create_room db_now new_id claims b =
      if text_eq (normalized_name b.name) (codes "")
      then reply (error_reply 400 Api.invalid_request "invalid request")
      else on_actor (create_room_as db_now new_id b) (actor_from_context parse_uuid claims)

  unfoldable pub post_rooms_create : ℕ → Uuid → Option Claims → Option RoomBody → Served
  post_rooms_create db_now new_id claims body = on_body (create_room db_now new_id claims) body

  unfoldable pub get_slots_list : Option Claims → Uuid → Time → Served
  get_slots_list claims room date =
      on_actor (λ _. respond (SlotService.list_available_by_room_and_date room date) slots_reply)
        (actor_from_context parse_uuid claims)

  module _ (order : List ℤ → List ℤ) (pg_time : GoString → Option ℕ) where
    abbrev pub with_days : ℕ → Uuid → Uuid → ScheduleBody → Option (List ℤ) → Served
    with_days db_now new_id room b none =
        reply (error_reply 400 Api.invalid_request "invalid request")
    with_days db_now new_id room b (some days) =
        respond
          (ScheduleService.create order pg_time db_now new_id room days b.start_time b.end_time)
          schedule_reply

    abbrev pub create_schedule_as : ℕ → Uuid → Uuid → ScheduleBody → Actor → Served
    create_schedule_as db_now new_id room b actor =
        if not (text_eq actor.role role_admin)
        then reply (error_reply 403 Api.forbidden "forbidden")
        else if not (b.room_id == room)
        then reply (error_reply 400 Api.invalid_request "roomId in path and body must match")
        else with_days db_now new_id room b (schedule_days_to_domain b.days_of_week)

    unfoldable pub post_schedule_create :
        ℕ → Uuid → Option Claims → Uuid → Option ScheduleBody → Served
    post_schedule_create db_now new_id claims room body =
        on_body
          (λ b.
            on_actor (create_schedule_as db_now new_id room b)
              (actor_from_context parse_uuid claims))
          body
