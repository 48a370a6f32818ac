-- ===== src/Http/Responses/Operations/Bookings.antt =====
-- The handlers of bookings write the responses of their operations.
use room_booking.Base.{ℕ, ℤ, List, [], ◌∷◌, Option, GoString, String, refl}
use room_booking.Domain.Time.{Time}
use room_booking.Domain.Entities.{Uuid, Booking}
use room_booking.Domain.Errors.{Result, ok, err}
use room_booking.Auth.Jwt.{Claims}
use room_booking.Http.Api.{BookingBody}
use room_booking.Http.Errors.{internal_error_reply}
use room_booking.Http.Handlers.{actor_from_context}
use room_booking.Http.Handlers.Bookings.{
  created_reply, my_reply, page_reply, cancelled_reply, post_bookings_create, get_bookings_my,
  get_bookings_list, post_bookings_cancel,
}
use room_booking.Http.Responses.Bookings.{
  PostBookingsCreateResponse, visit_post_bookings_create, GetBookingsListResponse,
  visit_get_bookings_list, GetBookingsMyResponse, visit_get_bookings_my, PostBookingsCancelResponse,
  visit_post_bookings_cancel,
}
use room_booking.Http.Responses.Documented.{
  Visited, Status, Writes, error-Visited, respond-Writes, on_body-Writes, on_actor-Writes,
}

post_bookings_create_400 : Status visit_post_bookings_create 400
unfolding visit_post_bookings_create
post_bookings_create_400 code message = record {
  response = PostBookingsCreateResponse.json400 code message;
  written = refl;
}

pub post_bookings_create_401 : Status visit_post_bookings_create 401
unfolding visit_post_bookings_create
post_bookings_create_401 code message = record {
  response = PostBookingsCreateResponse.json401 code message;
  written = refl;
}

post_bookings_create_403 : Status visit_post_bookings_create 403
unfolding visit_post_bookings_create
post_bookings_create_403 code message = record {
  response = PostBookingsCreateResponse.json403 code message;
  written = refl;
}

post_bookings_create_404 : Status visit_post_bookings_create 404
unfolding visit_post_bookings_create
post_bookings_create_404 code message = record {
  response = PostBookingsCreateResponse.json404 code message;
  written = refl;
}

post_bookings_create_409 : Status visit_post_bookings_create 409
unfolding visit_post_bookings_create
post_bookings_create_409 code message = record {
  response = PostBookingsCreateResponse.json409 code message;
  written = refl;
}

post_bookings_create_500 :
    (message : String) → Visited visit_post_bookings_create (internal_error_reply message)
unfolding visit_post_bookings_create
post_bookings_create_500 message = record {
  response = PostBookingsCreateResponse.json500 message;
  written = refl;
}

get_bookings_list_400 : Status visit_get_bookings_list 400
unfolding visit_get_bookings_list
get_bookings_list_400 code message = record {
  response = GetBookingsListResponse.json400 code message;
  written = refl;
}

pub get_bookings_list_401 : Status visit_get_bookings_list 401
unfolding visit_get_bookings_list
get_bookings_list_401 code message = record {
  response = GetBookingsListResponse.json401 code message;
  written = refl;
}

get_bookings_list_403 : Status visit_get_bookings_list 403
unfolding visit_get_bookings_list
get_bookings_list_403 code message = record {
  response = GetBookingsListResponse.json403 code message;
  written = refl;
}

get_bookings_list_500 :
    (message : String) → Visited visit_get_bookings_list (internal_error_reply message)
unfolding visit_get_bookings_list
get_bookings_list_500 message = record {
  response = GetBookingsListResponse.json500 message;
  written = refl;
}

pub get_bookings_my_401 : Status visit_get_bookings_my 401
unfolding visit_get_bookings_my
get_bookings_my_401 code message = record {
  response = GetBookingsMyResponse.json401 code message;
  written = refl;
}

get_bookings_my_403 : Status visit_get_bookings_my 403
unfolding visit_get_bookings_my
get_bookings_my_403 code message = record {
  response = GetBookingsMyResponse.json403 code message;
  written = refl;
}

get_bookings_my_500 :
    (message : String) → Visited visit_get_bookings_my (internal_error_reply message)
unfolding visit_get_bookings_my
get_bookings_my_500 message = record {
  response = GetBookingsMyResponse.json500 message;
  written = refl;
}

pub post_bookings_cancel_401 : Status visit_post_bookings_cancel 401
unfolding visit_post_bookings_cancel
post_bookings_cancel_401 code message = record {
  response = PostBookingsCancelResponse.json401 code message;
  written = refl;
}

post_bookings_cancel_403 : Status visit_post_bookings_cancel 403
unfolding visit_post_bookings_cancel
post_bookings_cancel_403 code message = record {
  response = PostBookingsCancelResponse.json403 code message;
  written = refl;
}

post_bookings_cancel_404 : Status visit_post_bookings_cancel 404
unfolding visit_post_bookings_cancel
post_bookings_cancel_404 code message = record {
  response = PostBookingsCancelResponse.json404 code message;
  written = refl;
}

post_bookings_cancel_500 :
    (message : String) → Visited visit_post_bookings_cancel (internal_error_reply message)
unfolding visit_post_bookings_cancel
post_bookings_cancel_500 message = record {
  response = PostBookingsCancelResponse.json500 message;
  written = refl;
}

created_reply-Visited : (r : Result Booking) → Visited visit_post_bookings_create (created_reply r)
unfolding visit_post_bookings_create
created_reply-Visited (ok b) = record {
  response = PostBookingsCreateResponse.json201 _;
  written = refl;
}
created_reply-Visited (err e) =
    error-Visited (400 ∷ 403 ∷ 404 ∷ 409 ∷ []) "failed to create booking" e
      (
        post_bookings_create_400,
        (post_bookings_create_403, (post_bookings_create_404, (post_bookings_create_409, tt))),
      )
      (post_bookings_create_500 _)

my_reply-Visited : (r : Result (List Booking)) → Visited visit_get_bookings_my (my_reply r)
unfolding visit_get_bookings_my
my_reply-Visited (ok bs) = record { response = GetBookingsMyResponse.json200 _; written = refl }
my_reply-Visited (err e) =
    error-Visited (403 ∷ []) "failed to list user bookings" e (get_bookings_my_403, tt)
      (get_bookings_my_500 _)

page_reply-Visited :
    (page page_size : ℤ) (r : Result (List Booking × ℕ))
    → Visited visit_get_bookings_list (page_reply page page_size r)
unfolding visit_get_bookings_list
page_reply-Visited page page_size (ok (bs, total)) = record {
  response = GetBookingsListResponse.json200 _ _;
  written = refl;
}
page_reply-Visited page page_size (err e) =
    error-Visited (400 ∷ 403 ∷ []) "failed to list bookings" e
      (get_bookings_list_400, (get_bookings_list_403, tt)) (get_bookings_list_500 _)

cancelled_reply-Visited :
    (r : Result Booking) → Visited visit_post_bookings_cancel (cancelled_reply r)
unfolding visit_post_bookings_cancel
cancelled_reply-Visited (ok b) = record {
  response = PostBookingsCancelResponse.json200 _;
  written = refl;
}
cancelled_reply-Visited (err e) =
    error-Visited (403 ∷ 404 ∷ []) "failed to cancel booking" e
      (post_bookings_cancel_403, (post_bookings_cancel_404, tt)) (post_bookings_cancel_500 _)

module _ (parse_uuid : GoString → Option Uuid) where
  pub post_bookings_create-Writes :
      (now : Time) (db_now : ℕ) (new_id : Uuid) (link_id : GoString) (claims : Option Claims)
      (body : Option BookingBody)
      → Writes visit_post_bookings_create
          (post_bookings_create parse_uuid now db_now new_id link_id claims body)
  unfolding post_bookings_create
  post_bookings_create-Writes now db_now new_id link_id claims body =
      on_body-Writes body post_bookings_create_400 (λ b.
        on_actor-Writes (actor_from_context parse_uuid claims) post_bookings_create_401
          (λ actor. respond-Writes created_reply-Visited))

  pub get_bookings_my-Writes :
      (now : Time) (claims : Option Claims)
      → Writes visit_get_bookings_my (get_bookings_my parse_uuid now claims)
  unfolding get_bookings_my
  get_bookings_my-Writes now claims =
      on_actor-Writes (actor_from_context parse_uuid claims) get_bookings_my_401
        (λ actor. respond-Writes my_reply-Visited)

  pub get_bookings_list-Writes :
      (claims : Option Claims) (page page_size : Option ℤ)
      → Writes visit_get_bookings_list (get_bookings_list parse_uuid claims page page_size)
  unfolding get_bookings_list
  get_bookings_list-Writes claims page page_size =
      on_actor-Writes (actor_from_context parse_uuid claims) get_bookings_list_401
        (λ actor. respond-Writes (page_reply-Visited _ _))

  pub post_bookings_cancel-Writes :
      (db_now : ℕ) (claims : Option Claims) (id : Uuid)
      → Writes visit_post_bookings_cancel (post_bookings_cancel parse_uuid db_now claims id)
  unfolding post_bookings_cancel
  post_bookings_cancel-Writes db_now claims id =
      on_actor-Writes (actor_from_context parse_uuid claims) post_bookings_cancel_401
        (λ actor. respond-Writes cancelled_reply-Visited)
