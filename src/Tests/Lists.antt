-- ===== src/Tests/Lists.antt =====
-- Instances of the theorems on the lists of bookings and rooms.
use room_booking.Base.{
  pos, List, some, none, Listed, codes, true, false, text_eq, ◌≡◌, ◌↔◌, refl, ap, arith,
}
use room_booking.Domain.Entities.{Booking, Room}
use room_booking.Domain.Codes.{role_user}
use room_booking.Domain.Errors.{ok}
use room_booking.Storage.Statements.Order.{Ascending}
use room_booking.Storage.Statements.{insert_room}
use room_booking.Storage.World.{run_sql, on_result}
use room_booking.Storage.World.Quiet.{quiet}
use room_booking.Storage.RoomRepository as RoomRepository
use room_booking.Storage.RoomRepository.{row_of_room, room_of_row}
use room_booking.Storage.BookingRepository.{row_of_booking, booking_of_row}
use room_booking.Service.RoomService as RoomService
use room_booking.Service.RoomService.{new_room, not_positive}
use room_booking.Service.RoomService.Listing.{list-create}
use room_booking.Service.BookingService as BookingService
use room_booking.Service.BookingService.{new_booking}
use room_booking.Service.BookingService.Mine.{IsMine, list_my_iff, list_my-create}
use room_booking.Tests.Data.{office, midnight, half_past}
use room_booking.Tests.Bookings.{booked, booked_office, booked_run}

list_my_iff_example :
    (bs : List Booking) × (BookingService.list_my midnight 7 role_user (quiet booked_office 3)
      ≡ (ok bs, quiet booked_office 3))
    × Ascending (λ (b : Booking). b.start_at.nanos) bs
    × ((b : Booking) → Listed b bs ↔ IsMine midnight 7 booked_office 3 b)
list_my_iff_example = list_my_iff midnight 7 booked_office 3

-- The user sees the booking just made.
list_my-create_example :
    (bs : List Booking) × ((BookingService.list_my half_past 7 role_user (
        quiet
          (BookingService.create midnight 100 6
            (codes "link")
            7
            role_user
            1
            half_past
            true
            (quiet office 3)).1.db
          3)).0
      ≡ ok bs)
    × Listed (booking_of_row 3 (row_of_booking 100 booked)) bs
list_my-create_example =
    list_my-create midnight 100 6 (codes "link") 7 role_user 1 half_past true (quiet office 3)
      half_past 3 (ap (λ p. p.0) booked_run) (omega arith)

abbrev green : Room
green = new_room 2 (codes "Green") none (some (pos 6))

green_created :
    (RoomService.create 100 2 (codes "Green") none (some (pos 6)) (quiet office 3)).0 ≡ ok green
unfolding RoomService.create RoomRepository.create on_result run_sql insert_room text_eq
green_created = refl

list-create_example :
    (text_eq (codes "Green") (codes "") ≡ false)
    × (not_positive (some (pos 6)) ≡ false)
    × ((rooms : List Room) × ((RoomService.list (
            quiet
              (RoomService.create 100 2 (codes "Green") none (some (pos 6)) (quiet office 3)).1.db
              3)).0
          ≡ ok rooms)
        × Ascending (λ (r : Room). r.created_at.nanos) rooms
        × Listed (room_of_row 3 (row_of_room 100 green)) rooms)
    × ((RoomRepository.exists 2 (
          quiet
            (RoomService.create 100 2 (codes "Green") none (some (pos 6)) (quiet office 3)).1.db
            3)).0
        ≡ ok true)
list-create_example =
    list-create 100 2 (codes "Green") none (some (pos 6)) (quiet office 3) 3 green_created
