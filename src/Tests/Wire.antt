-- ===== src/Tests/Wire.antt =====
-- Concrete requests before they are decoded, and the configuration.
use room_booking.Base.{
  ℕ, pos, List, [], ◌∷◌, none, GoString, codes, text_eq, if◌then◌else◌, ◌≡◌, ◌⊎◌, ◌≤◌, length, refl,
}
use room_booking.Domain.Codes.{role_admin}
use room_booking.Domain.Errors.{ok}
use room_booking.Domain.Entities.{Booking}
use room_booking.Storage.World.{run_sql, on_result}
use room_booking.Storage.Statements.{order_by}
use room_booking.Storage.Bookings.{count_bookings, select_bookings_page}
use room_booking.Storage.World.Quiet.{quiet}
use room_booking.Storage.BookingRepository.{booking_of_row}
use room_booking.Storage.BookingRepository as BookingRepository
use room_booking.Service.BookingService.{list_all, positive_or}
use room_booking.Service.BookingService.Pages.{list_all_bounds}
use room_booking.Config.{load, Complete, variables, load-Complete}
use room_booking.Http.Middleware.{Client}
use room_booking.Http.Server.{Readings, Request, bookings_my, bookings_cancel, serve}
use room_booking.Http.Responses.Operations.{Documented, serve-Documented}
use room_booking.Http.Wire.{Route, get_bookings_my, post_bookings_cancel, Incoming, receive}
use room_booking.Http.Wire.Binding.{Bound, bound, unbound, Binders}
use room_booking.Http.Wire.Strict.{Decoders}
use room_booking.Http.Wire.Outcomes.{receive_unreadable, receive-serve, readable}
use room_booking.Tests.Data.{office, midnight, at_nine}
use room_booking.Tests.Library.{toy_server}

-- An id is its one byte.
abbrev toy_uuid : GoString → GoString → Bound ℕ
toy_uuid name (c ∷ []) = bound c
toy_uuid name _ = unbound (codes "invalid UUID length")

abbrev toy_binders : Binders
toy_binders = record {
  query_get = λ query name. query;
  bind_integer = λ name query. bound none;
  bind_date = λ name query. bound midnight;
  bind_uuid = toy_uuid;
}

abbrev toy_decoders : Decoders
toy_decoders = record {
  dummy_login_body = λ text. none;
  login_body = λ text. none;
  register_body = λ text. none;
  room_body = λ text. none;
  schedule_body = λ text. none;
  booking_body = λ text. none;
}

abbrev curl : Client
curl = record { forwarded_for = []; real_ip = []; remote_addr = []; user_agent = codes "curl" }

abbrev reading : Readings
reading = record {
  checked_at = midnight;
  now = midnight;
  later = midnight;
  db_now = 100;
  new_id = 6;
  link_id = codes "link";
}

abbrev incoming : Route → GoString → GoString → Incoming
incoming route method path = record {
  route = route;
  method = method;
  path = path;
  authorization = codes "Bearer x";
  client = curl;
  readings = reading;
}

abbrev malformed : Incoming
malformed =
    incoming (post_bookings_cancel (codes "xyz")) (codes "POST") (codes "/bookings/xyz/cancel")

abbrev mine : Incoming
mine = incoming get_bookings_my (codes "GET") (codes "/bookings/my")

receive_unreadable_example :
    ((receive toy_binders toy_decoders toy_server malformed (quiet office 3)).1 ≡ quiet office 3)
    × (((receive toy_binders toy_decoders toy_server malformed (quiet office 3)).0.0.status ≡ 400)
        ⊎ ((receive toy_binders toy_decoders toy_server malformed (quiet office 3)).0.0.status
            ≡ 401))
    × ((receive toy_binders toy_decoders toy_server malformed (quiet office 3)).0.1.status
        ≡ (receive toy_binders toy_decoders toy_server malformed (quiet office 3)).0.0.status)
receive_unreadable_example =
    receive_unreadable toy_binders toy_decoders toy_server malformed (quiet office 3) refl

receive-serve_example :
    receive toy_binders toy_decoders toy_server mine (quiet office 3)
    ≡ serve toy_server
        (readable toy_binders toy_decoders toy_server mine bookings_my)
        (quiet office 3)
receive-serve_example =
    receive-serve toy_binders toy_decoders toy_server mine bookings_my (quiet office 3) refl refl
      refl

abbrev cancelling : Request
cancelling = record {
  endpoint = bookings_cancel 5;
  authorization = codes "Bearer x";
  client = curl;
  readings = reading;
}

serve-Documented_example :
    Documented (bookings_cancel 5) (serve toy_server cancelling (quiet office 3)).0.0
serve-Documented_example = serve-Documented toy_server cancelling (quiet office 3)

-- An environment without a DSN.
abbrev some_env : GoString → GoString
some_env name =
    if text_eq name (codes "HTTP_PORT")
    then codes " 8080 "
    else if text_eq name (codes "JWT_SECRET")
    then codes "secret"
    else []

load-Complete_example : Complete (variables some_env) (load some_env)
load-Complete_example = load-Complete some_env

abbrev listed : List Booking
listed = booking_of_row 3 at_nine ∷ []

list_all_run : (list_all role_admin (pos 1) (pos 0) (quiet office 3)).0 ≡ ok (listed, 1)
unfolding list_all text_eq BookingRepository.list_all on_result run_sql count_bookings
    select_bookings_page order_by
list_all_run = refl

list_all_bounds_example :
    (role_admin ≡ role_admin)
    × (length listed ≤ positive_or 20 (pos 0))
    × (positive_or 20 (pos 0) ≤ 100)
list_all_bounds_example = list_all_bounds role_admin (pos 1) (pos 0) (quiet office 3) list_all_run
