-- ===== src/Http/Responses/Operations/Rooms.antt =====
-- The handlers of rooms, schedules and slots write the responses of their operations.
use room_booking.Base.{
  ℕ, ℤ, List, [], ◌∷◌, Option, none, some, GoString, String, codes, text_eq, not, ◌==◌, refl,
}
use room_booking.Domain.Time.{Time}
use room_booking.Domain.Entities.{Uuid, Room, Schedule, Slot}
use room_booking.Domain.Codes.{role_admin}
use room_booking.Domain.Errors.{Result, ok, err}
use room_booking.Auth.Jwt.{Claims}
use room_booking.Http.Api.{RoomBody, ScheduleBody}
use room_booking.Http.Errors.{internal_error_reply}
use room_booking.Http.Handlers.{normalized_name, actor_from_context}
use room_booking.Http.Handlers.Rooms.{
  rooms_reply, get_rooms_list, room_reply, post_rooms_create, schedule_days_to_domain,
  schedule_reply, with_days, post_schedule_create, slots_reply, get_slots_list,
}
use room_booking.Http.Responses.Rooms.{
  PostRoomsCreateResponse, visit_post_rooms_create, GetRoomsListResponse, visit_get_rooms_list,
  PostRoomsScheduleCreateResponse, visit_post_schedule_create, GetRoomsSlotsListResponse,
  visit_get_slots_list,
}
use room_booking.Http.Responses.Documented.{
  Visited, Status, Writes, error-Visited, reply-Writes, respond-Writes, on_body-Writes,
  on_actor-Writes, if-Writes,
}

post_rooms_create_400 : Status visit_post_rooms_create 400
unfolding visit_post_rooms_create
post_rooms_create_400 code message = record {
  response = PostRoomsCreateResponse.json400 code message;
  written = refl;
}

pub post_rooms_create_401 : Status visit_post_rooms_create 401
unfolding visit_post_rooms_create
post_rooms_create_401 code message = record {
  response = PostRoomsCreateResponse.json401 code message;
  written = refl;
}

post_rooms_create_403 : Status visit_post_rooms_create 403
unfolding visit_post_rooms_create
post_rooms_create_403 code message = record {
  response = PostRoomsCreateResponse.json403 code message;
  written = refl;
}

post_rooms_create_500 :
    (message : String) → Visited visit_post_rooms_create (internal_error_reply message)
unfolding visit_post_rooms_create
post_rooms_create_500 message = record {
  response = PostRoomsCreateResponse.json500 message;
  written = refl;
}

get_rooms_list_500 :
    (message : String) → Visited visit_get_rooms_list (internal_error_reply message)
unfolding visit_get_rooms_list
get_rooms_list_500 message = record {
  response = GetRoomsListResponse.json500 message;
  written = refl;
}

post_schedule_create_400 : Status visit_post_schedule_create 400
unfolding visit_post_schedule_create
post_schedule_create_400 code message = record {
  response = PostRoomsScheduleCreateResponse.json400 code message;
  written = refl;
}

pub post_schedule_create_401 : Status visit_post_schedule_create 401
unfolding visit_post_schedule_create
post_schedule_create_401 code message = record {
  response = PostRoomsScheduleCreateResponse.json401 code message;
  written = refl;
}

post_schedule_create_403 : Status visit_post_schedule_create 403
unfolding visit_post_schedule_create
post_schedule_create_403 code message = record {
  response = PostRoomsScheduleCreateResponse.json403 code message;
  written = refl;
}

post_schedule_create_404 : Status visit_post_schedule_create 404
unfolding visit_post_schedule_create
post_schedule_create_404 code message = record {
  response = PostRoomsScheduleCreateResponse.json404 code message;
  written = refl;
}

post_schedule_create_409 : Status visit_post_schedule_create 409
unfolding visit_post_schedule_create
post_schedule_create_409 code message = record {
  response = PostRoomsScheduleCreateResponse.json409 code message;
  written = refl;
}

post_schedule_create_500 :
    (message : String) → Visited visit_post_schedule_create (internal_error_reply message)
unfolding visit_post_schedule_create
post_schedule_create_500 message = record {
  response = PostRoomsScheduleCreateResponse.json500 message;
  written = refl;
}

get_slots_list_400 : Status visit_get_slots_list 400
unfolding visit_get_slots_list
get_slots_list_400 code message = record {
  response = GetRoomsSlotsListResponse.json400 code message;
  written = refl;
}

pub get_slots_list_401 : Status visit_get_slots_list 401
unfolding visit_get_slots_list
get_slots_list_401 code message = record {
  response = GetRoomsSlotsListResponse.json401 code message;
  written = refl;
}

get_slots_list_404 : Status visit_get_slots_list 404
unfolding visit_get_slots_list
get_slots_list_404 code message = record {
  response = GetRoomsSlotsListResponse.json404 code message;
  written = refl;
}

get_slots_list_500 :
    (message : String) → Visited visit_get_slots_list (internal_error_reply message)
unfolding visit_get_slots_list
get_slots_list_500 message = record {
  response = GetRoomsSlotsListResponse.json500 message;
  written = refl;
}

rooms_reply-Visited : (r : Result (List Room)) → Visited visit_get_rooms_list (rooms_reply r)
unfolding visit_get_rooms_list
rooms_reply-Visited (ok rooms) = record {
  response = GetRoomsListResponse.json200 _;
  written = refl;
}
rooms_reply-Visited (err e) = get_rooms_list_500 _

pub get_rooms_list-Writes : Writes visit_get_rooms_list get_rooms_list
unfolding get_rooms_list
get_rooms_list-Writes = respond-Writes rooms_reply-Visited

room_reply-Visited : (r : Result Room) → Visited visit_post_rooms_create (room_reply r)
unfolding visit_post_rooms_create
room_reply-Visited (ok room) = record {
  response = PostRoomsCreateResponse.json201 _;
  written = refl;
}
room_reply-Visited (err e) =
    error-Visited (400 ∷ 403 ∷ []) "failed to create room" e
      (post_rooms_create_400, (post_rooms_create_403, tt)) (post_rooms_create_500 _)

schedule_reply-Visited :
    (r : Result Schedule) → Visited visit_post_schedule_create (schedule_reply r)
unfolding visit_post_schedule_create
schedule_reply-Visited (ok schedule) = record {
  response = PostRoomsScheduleCreateResponse.json201 _;
  written = refl;
}
schedule_reply-Visited (err e) =
    error-Visited (400 ∷ 403 ∷ 404 ∷ 409 ∷ []) "failed to create schedule" e
      (
        post_schedule_create_400,
        (post_schedule_create_403, (post_schedule_create_404, (post_schedule_create_409, tt))),
      )
      (post_schedule_create_500 _)

slots_reply-Visited : (r : Result (List Slot)) → Visited visit_get_slots_list (slots_reply r)
unfolding visit_get_slots_list
slots_reply-Visited (ok slots) = record {
  response = GetRoomsSlotsListResponse.json200 _;
  written = refl;
}
slots_reply-Visited (err e) =
    error-Visited (400 ∷ 404 ∷ []) "failed to list slots" e
      (get_slots_list_400, (get_slots_list_404, tt)) (get_slots_list_500 _)

module _ (parse_uuid : GoString → Option Uuid) where
  pub post_rooms_create-Writes :
      (db_now : ℕ) (new_id : Uuid) (claims : Option Claims) (body : Option RoomBody)
      → Writes visit_post_rooms_create (post_rooms_create parse_uuid db_now new_id claims body)
  unfolding post_rooms_create
  post_rooms_create-Writes db_now new_id claims body =
      on_body-Writes body post_rooms_create_400 (λ b.
        if-Writes (text_eq (normalized_name b.name) (codes ""))
          (reply-Writes (post_rooms_create_400 _ _))
          (on_actor-Writes (actor_from_context parse_uuid claims) post_rooms_create_401 (λ actor.
            if-Writes (not (text_eq actor.role role_admin))
              (reply-Writes (post_rooms_create_403 _ _)) (respond-Writes room_reply-Visited))))

  pub get_slots_list-Writes :
      (claims : Option Claims) (room : Uuid) (date : Time)
      → Writes visit_get_slots_list (get_slots_list parse_uuid claims room date)
  unfolding get_slots_list
  get_slots_list-Writes claims room date =
      on_actor-Writes (actor_from_context parse_uuid claims) get_slots_list_401
        (λ _. respond-Writes slots_reply-Visited)

  module _ (order : List ℤ → List ℤ) (pg_time : GoString → Option ℕ) where
    with_days-Writes :
        (db_now : ℕ) (new_id room : Uuid) (b : ScheduleBody) (days : Option (List ℤ))
        → Writes visit_post_schedule_create
            (with_days parse_uuid order pg_time db_now new_id room b days)
    with_days-Writes db_now new_id room b none = reply-Writes (post_schedule_create_400 _ _)
    with_days-Writes db_now new_id room b (some days) = respond-Writes schedule_reply-Visited

    pub post_schedule_create-Writes :
        (db_now : ℕ) (new_id : Uuid) (claims : Option Claims) (room : Uuid)
        (body : Option ScheduleBody)
        → Writes visit_post_schedule_create
            (post_schedule_create parse_uuid order pg_time db_now new_id claims room body)
    unfolding post_schedule_create
    post_schedule_create-Writes db_now new_id claims room body =
        on_body-Writes body post_schedule_create_400 (λ b.
          on_actor-Writes (actor_from_context parse_uuid claims) post_schedule_create_401 (λ actor.
            if-Writes (not (text_eq actor.role role_admin))
              (reply-Writes (post_schedule_create_403 _ _))
              (if-Writes (not (b.room_id == room)) (reply-Writes (post_schedule_create_400 _ _))
                (with_days-Writes db_now new_id room b (schedule_days_to_domain b.days_of_week)))))

pub get_rooms_list_401 : Status visit_get_rooms_list 401
unfolding visit_get_rooms_list
get_rooms_list_401 code message = record {
  response = GetRoomsListResponse.json401 code message;
  written = refl;
}
