-- ===== src/Tests/Schedules.antt =====
-- Instances of the theorems on schedules.
use room_booking.Base.{
  ℕ, ℤ, pos, List, [], ◌∷◌, Option, some, GoString, codes, split_on, atoi, text_eq, ◌≡◌, ◌↔◌, refl,
  if◌then◌else◌,
}
use room_booking.Domain.Entities.{Schedule}
use room_booking.Domain.Errors.{Error, ok, err}
use room_booking.Service.ScheduleService.Once.{create_schedule_again}
use room_booking.Slots.Parse.{parse_hhmm}
use room_booking.Slots.Days.{normalize_and_validate_days, collect_days, sort_days, insert_sorted}
use room_booking.Storage.Tables.{Database, RoomRow}
use room_booking.Storage.Statements.{room_exists, insert_schedule}
use room_booking.Storage.World.{run_sql, on_result}
use room_booking.Storage.World.Quiet.{quiet}
use room_booking.Storage.RoomRepository as RoomRepository
use room_booking.Storage.ScheduleRepository as ScheduleRepository
use room_booking.Storage.ScheduleRepository.{insert_schedule_text}
use room_booking.Service.ScheduleService.{validate_schedule_window, new_schedule, create}
use room_booking.Service.ScheduleService.Laws.{
  IsWindow, validate_schedule_window-IsWindow, create_schedule_sound,
}
use room_booking.Tests.Data.{blue_room, office}

validate_schedule_window-IsWindow_example :
    (validate_schedule_window (codes "09:00") (codes "10:30") ≡ ok tt)
    ↔ IsWindow (codes "09:00") (codes "10:30")
validate_schedule_window-IsWindow_example =
    validate_schedule_window-IsWindow (codes "09:00") (codes "10:30")

-- The office with a second room, which has no schedule.
abbrev red_room : RoomRow
red_room = record blue_room { id = 2 }

abbrev two_rooms : Database
two_rooms = record office { rooms = red_room ∷ blue_room ∷ [] }

abbrev as_given : List ℤ → List ℤ
as_given set = set

abbrev two_times : GoString → Option ℕ
two_times text = if text_eq text (codes "09:00") then some 32400 else some 37800

abbrev fridays : Schedule
fridays = new_schedule 4 2 (pos 5 ∷ []) (codes "09:00") (codes "10:30")

fridays_run :
    (create as_given two_times 100 4 2
      (pos 5 ∷ pos 5 ∷ [])
      (codes "09:00")
      (codes "10:30")
      (quiet two_rooms 3)).0
    ≡ ok fridays
unfolding create normalize_and_validate_days collect_days sort_days insert_sorted
    validate_schedule_window parse_hhmm split_on atoi RoomRepository.exists room_exists
    ScheduleRepository.create insert_schedule_text insert_schedule run_sql on_result text_eq
fridays_run = refl

create_schedule_sound_example :
    (ds : List ℤ) × (normalize_and_validate_days as_given (pos 5 ∷ pos 5 ∷ []) ≡ ok ds)
    × IsWindow (codes "09:00") (codes "10:30")
    × (fridays ≡ new_schedule 4 2 ds (codes "09:00") (codes "10:30"))
create_schedule_sound_example =
    create_schedule_sound as_given two_times 100 4 2 (pos 5 ∷ pos 5 ∷ []) (codes "09:00")
      (codes "10:30") (quiet two_rooms 3) fridays_run

create_schedule_again_example :
    (e : Error) × (create as_given two_times 100 9 1
        (pos 5 ∷ [])
        (codes "09:00")
        (codes "10:30")
        (quiet office 3)
      ≡ (err e, quiet office 3))
create_schedule_again_example =
    create_schedule_again as_given two_times 100 9 1 (pos 5 ∷ []) (codes "09:00") (codes "10:30")
      office 3 refl
