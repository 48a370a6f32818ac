-- ===== src/Http/Handlers/Bookings.antt =====
-- internal/transport/http/booking_handler.go.
use room_booking.Base.{ℕ, ℤ, pos, Option, none, some, List, [], ◌∷◌, GoString, false}
use room_booking.Domain.Time.{Time}
use room_booking.Domain.Entities.{Uuid, Booking}
use room_booking.Domain.Errors.{Result, ok, err}
use room_booking.Auth.Jwt.{Claims}
use room_booking.Service.BookingService as BookingService
use room_booking.Http.Api as Api
use room_booking.Http.Api.{Reply, Served, BookingBody}
use room_booking.Http.Errors.{reply_of_error}
use room_booking.Http.Mapper.{booking_to_api, bookings_to_api}
use room_booking.Http.Handlers.{success, respond, actor_from_context, on_actor, on_body}

-- `*p` if p is not nil, and else the default.
abbrev pub or_default : {A : Type 0} → A → Option A → A
or_default d none = d
or_default d (some a) = a

abbrev pub created_reply : Result Booking → Reply
created_reply (ok b) = success 201 (Api.booking (booking_to_api b))
created_reply (err e) = reply_of_error (400 ∷ 403 ∷ 404 ∷ 409 ∷ []) "failed to create booking" e

abbrev pub my_reply : Result (List Booking) → Reply
my_reply (ok bs) = success 200 (Api.bookings (bookings_to_api bs))
my_reply (err e) = reply_of_error (403 ∷ []) "failed to list user bookings" e

abbrev pub page_reply : ℤ → ℤ → Result (List Booking × ℕ) → Reply
page_reply page page_size (ok (bs, total)) = success 200 (
    Api.booking_page (bookings_to_api bs)
      (record { page = page; page_size = page_size; total = total }))
page_reply page page_size (err e) = reply_of_error (400 ∷ 403 ∷ []) "failed to list bookings" e

abbrev pub cancelled_reply : Result Booking → Reply
cancelled_reply (ok b) = success 200 (Api.booking (booking_to_api b))
cancelled_reply (err e) = reply_of_error (403 ∷ 404 ∷ []) "failed to cancel booking" e

module _ (parse_uuid : GoString → Option Uuid) where
  unfoldable pub post_bookings_create :
      Time → ℕ → Uuid → GoString → Option Claims → Option BookingBody → Served
  post_bookings_create now db_now new_id link_id claims body =
      on_body
        (λ b.
          on_actor
            (λ actor.
              respond
                (BookingService.create now db_now new_id link_id actor.user_id actor.role b.room_id
                  b.start_at (or_default false b.create_conference_link))
                created_reply)
            (actor_from_context parse_uuid claims))
        body

  unfoldable pub get_bookings_my : Time → Option Claims → Served
  get_bookings_my now claims =
      on_actor (λ actor. respond (BookingService.list_my now actor.user_id actor.role) my_reply)
        (actor_from_context parse_uuid claims)

  unfoldable pub get_bookings_list : Option Claims → Option ℤ → Option ℤ → Served
  get_bookings_list claims page page_size =
      on_actor
        (λ actor.
          respond
            (BookingService.list_all actor.role (or_default (pos 1) page)
              (or_default (pos 20) page_size))
            (page_reply (or_default (pos 1) page) (or_default (pos 20) page_size)))
        (actor_from_context parse_uuid claims)

  unfoldable pub post_bookings_cancel : ℕ → Option Claims → Uuid → Served
  post_bookings_cancel db_now claims id =
      on_actor
        (λ actor.
          respond (BookingService.cancel db_now actor.user_id actor.role id) cancelled_reply)
        (actor_from_context parse_uuid claims)
