-- ===== src/Tests/Bookings.antt =====
-- Instances of the theorems on bookings.
use room_booking.Base.{
  arith, List, [], ◌∷◌, codes, split_on, atoi, count_byte, ◌≡◌, ◌↔◌, refl, ap, true, false,
}
use room_booking.Domain.Time.{date, utc, before}
use room_booking.Domain.Entities.{Slot, Booking}
use room_booking.Domain.Codes.{role_user}
use room_booking.Domain.Errors.{ok, err, domain, slot_already_booked}
use room_booking.Slots.Parse.{parse_hhmm}
use room_booking.Slots.Days.{normalize_days, weekday_to_iso}
use room_booking.Slots.Generator.{
  slots_from, generate_slots_for_date, is_start_at_within_schedule, truncate_to_day_utc,
}
use room_booking.Slots.Generator.Loop.{Offers}
use room_booking.Storage.Tables.{Database}
use room_booking.Storage.Statements.{room_exists, select_schedule_by_room}
use room_booking.Storage.Bookings.{taken, select_active_starts, cancelled_row}
use room_booking.Storage.World.{run_sql, on_result, to_timestamptz}
use room_booking.Storage.World.Quiet.{quiet}
use room_booking.Storage.RoomRepository as RoomRepository
use room_booking.Storage.ScheduleRepository as ScheduleRepository
use room_booking.Storage.ScheduleRepository.{trim_seconds, time_text, schedule_of_row}
use room_booking.Storage.BookingRepository as BookingRepository
use room_booking.Storage.BookingRepository.{row_of_booking, booking_of_row}
use room_booking.Service.SlotService.{list_available_by_room_and_date, free_slots}
use room_booking.Service.SlotService.Available.{IsFree, list_available_iff}
use room_booking.Service.SlotService.Total.{list_available_answers}
use room_booking.Service.BookingService as BookingService
use room_booking.Service.BookingService.{new_booking}
use room_booking.Service.BookingService.Creation.{create_sound}
use room_booking.Service.BookingService.Free.{create_free, create_booked, create-not_offered}
use room_booking.Service.BookingService.Cancelling.{
  after_cancel, cancel_owner, cancel_twice, cancel-freed,
}
use room_booking.Service.BookingService.Ledger.{Request, book, drop}
use room_booking.Service.BookingService.Refinement.Runs.{RunRefined, perform_all-RunRefined}
use room_booking.Service.BookingService.Rebooking.{create-cancel}
use room_booking.Tests.Data.{mornings, at_nine, office, midnight, half_past, office-WellFormed}

half_past-within : is_start_at_within_schedule (schedule_of_row 3 mornings) half_past ≡ true
unfolding is_start_at_within_schedule schedule_of_row parse_hhmm split_on atoi count_byte
    trim_seconds time_text normalize_days weekday_to_iso
half_past-within = refl

nine-within : is_start_at_within_schedule (schedule_of_row 3 mornings) (date 0 9 0) ≡ true
unfolding is_start_at_within_schedule schedule_of_row parse_hhmm split_on atoi count_byte
    trim_seconds time_text normalize_days weekday_to_iso
nine-within = refl

half_past-IsFree : IsFree office 3 1 midnight half_past
unfolding taken
half_past-IsFree = record {
  row = mornings;
  found = refl;
  in_utc = refl;
  on_schedule = half_past-within;
  on_date = refl;
  free = refl;
}

abbrev office_slots : List Slot
office_slots =
    record { room_id = 1; start_at = date 0 9 30; end_at = date 0 10 0 }
    ∷ record { room_id = 1; start_at = date 0 10 0; end_at = date 0 10 30 }
    ∷ []

list_available_run :
    (list_available_by_room_and_date 1 midnight (quiet office 3)).0 ≡ ok office_slots
unfolding list_available_by_room_and_date RoomRepository.exists room_exists
    ScheduleRepository.get_by_room_id select_schedule_by_room on_result run_sql schedule_of_row
    generate_slots_for_date truncate_to_day_utc parse_hhmm split_on atoi normalize_days count_byte
    weekday_to_iso slots_from trim_seconds time_text
    BookingRepository.list_active_starts_by_room_between select_active_starts free_slots
list_available_run = refl

list_available_iff_example : Offers half_past office_slots ↔ IsFree office 3 1 midnight half_past
list_available_iff_example =
    list_available_iff office 3 1 midnight half_past office-WellFormed list_available_run

list_available_answers_example :
    (result : List Slot) × ((list_available_by_room_and_date 1 midnight (quiet office 3)).0
      ≡ ok result)
list_available_answers_example =
    list_available_answers office 3 1 midnight office-WellFormed (omega arith, tt) refl

-- The booking of the user 7 at 9:30, and what is left of the office.
abbrev pub booked : Booking
booked = new_booking 6 (codes "link") 7 1 half_past true

abbrev pub booked_office : Database
booked_office = record office { bookings = row_of_booking 100 booked ∷ office.bookings }

create_free_example :
    BookingService.create midnight 100 6
      (codes "link")
      7
      role_user
      1
      half_past
      true
      (quiet office 3)
    ≡ (ok booked, quiet booked_office 3)
create_free_example =
    create_free office 3 midnight 100 6 (codes "link") 7 1 half_past true midnight office-WellFormed
      refl refl refl half_past-IsFree

nine-taken : taken 1 32400000000 office.bookings ≡ true
unfolding taken
nine-taken = refl

create_booked_example :
    BookingService.create midnight 100 6
      (codes "link")
      7
      role_user
      1
      (date 0 9 0)
      false
      (quiet office 3)
    ≡ (err (domain slot_already_booked), quiet office 3)
create_booked_example =
    create_booked office 3 midnight 100 6 (codes "link") 7 1 (date 0 9 0) false mornings refl refl
      refl nine-within nine-taken

abbrev last_slot : List Slot
last_slot = record { room_id = 1; start_at = date 0 10 0; end_at = date 0 10 30 } ∷ []

list_booked_run :
    (list_available_by_room_and_date 1 midnight (quiet booked_office 3)).0 ≡ ok last_slot
unfolding list_available_by_room_and_date RoomRepository.exists room_exists
    ScheduleRepository.get_by_room_id select_schedule_by_room on_result run_sql schedule_of_row
    generate_slots_for_date truncate_to_day_utc parse_hhmm split_on atoi normalize_days count_byte
    weekday_to_iso slots_from trim_seconds time_text
    BookingRepository.list_active_starts_by_room_between select_active_starts free_slots
list_booked_run = refl

pub booked_run :
    BookingService.create midnight 100 6
      (codes "link")
      7
      role_user
      1
      half_past
      true
      (quiet office 3)
    ≡ (ok booked, quiet booked_office 3)
booked_run =
    create_free office 3 midnight 100 6 (codes "link") 7 1 half_past true midnight office-WellFormed
      refl refl refl half_past-IsFree

create-not_offered_example : ¬ Offers (utc half_past) last_slot
create-not_offered_example =
    create-not_offered office 3 midnight 100 6 (codes "link") 7 role_user 1 half_past true midnight
      booked_office office-WellFormed booked_run list_booked_run

create_sound_example :
    (role_user ≡ role_user)
    × (before (utc half_past) midnight ≡ false)
    × (booked ≡ booked)
    × (taken 1
          (to_timestamptz (utc half_past))
          (BookingService.create midnight 100 6
            (codes "link")
            7
            role_user
            1
            half_past
            true
            (quiet office 3)).1.db.bookings
        ≡ true)
create_sound_example =
    create_sound midnight 100 6 (codes "link") 7 1 half_past true role_user (quiet office 3)
      (ap (λ p. p.0) booked_run)

cancel_owner_example :
    BookingService.cancel 200 7 role_user 5 (quiet office 3)
    ≡ (ok (booking_of_row 3 (cancelled_row 200 at_nine)), quiet (after_cancel 5 200 office) 3)
cancel_owner_example = cancel_owner office 3 7 5 200 refl refl

cancel_twice_example :
    BookingService.cancel 300 7 role_user 5
      (BookingService.cancel 200 7 role_user 5 (quiet office 3)).1
    ≡ BookingService.cancel 200 7 role_user 5 (quiet office 3)
cancel_twice_example = cancel_twice office 3 7 5 200 300 {row = at_nine} refl refl

cancel-freed_example :
    taken 1 32400000000 (BookingService.cancel 200 7 role_user 5 (quiet office 3)).1.db.bookings
    ≡ false
cancel-freed_example =
    cancel-freed office 3 7 5 200 {row = at_nine} office-WellFormed refl refl refl

-- Three requests: the free start, the same start again, and the end of the old booking.
abbrev requests : List Request
requests =
    book midnight 100 6 (codes "link") 7 role_user 1 half_past true
    ∷ book midnight 101 8 (codes "link") 7 role_user 1 half_past true
    ∷ drop 200 7 role_user 5
    ∷ []

perform_all-RunRefined_example : RunRefined office 3 requests
perform_all-RunRefined_example = perform_all-RunRefined office 3 requests office-WellFormed

create-cancel_example :
    (BookingService.create midnight 300 8
      (codes "link")
      7
      role_user
      1
      (date 0 9 0)
      false
      (BookingService.cancel 200 7 role_user 5 (quiet office 3)).1).0
    ≡ ok (new_booking 8 (codes "link") 7 1 (date 0 9 0) false)
create-cancel_example =
    create-cancel office 3 7 5 200 midnight 300 8 (codes "link") 7 (date 0 9 0) false
      {row = at_nine} {schedule = mornings} office-WellFormed refl refl refl refl refl nine-within
      refl refl refl
