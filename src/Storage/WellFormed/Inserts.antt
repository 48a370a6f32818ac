-- ===== src/Storage/WellFormed/Inserts.antt =====
-- The inserts and the invariant of the database.
use room_booking.Base.{
  List, [], ◌∷◌, All-imp, none, some, Bool, true, false, ◌≡◌, ◌⊎◌, inl, inr, refl, arith,
}
use room_booking.Storage.Tables.{UserRow, RoomRow, ScheduleRow, BookingRow, Database, DbError}
use room_booking.Storage.Statements.{
  first_violation, unless_violated, user_tests, room_tests, schedule_tests, insert_user,
  insert_room, insert_schedule,
}
use room_booking.Storage.Bookings.{booking_tests, insert_booking}
use room_booking.Storage.WellFormed.{WellFormed, IsBooking, IsSchedule}

-- Every test holds.
abbrev pub Passes : List (Bool × DbError) → Type 0
Passes [] = Unit
Passes ((holds, e) ∷ tests) = (holds ≡ true) × Passes tests

pub first_violation-cases :
    (tests : List (Bool × DbError))
    → (first_violation tests ≡ none) × Passes tests
      ⊎ (e : DbError) × (first_violation tests ≡ some e)
first_violation-cases [] = inl (refl, tt)
first_violation-cases ((true, e) ∷ tests) = elim (first_violation-cases tests) [
  | inl (none_found, passes) ↦ inl (none_found, (refl, passes))
  | inr found ↦ inr found
]
first_violation-cases ((false, e) ∷ tests) = inr (e, refl)

-- What holds before holds after an insert, if it holds with the row whenever the tests pass.
unless_violated-keeps :
    {A : Type 0} (P : Database → Type 0) (tests : List (Bool × DbError)) (a : A)
    (old new : Database)
    → P old
    → (Passes tests → P new)
    → P (unless_violated (first_violation tests) a old new).1
unless_violated-keeps P tests a old new before after = elim (first_violation-cases tests) [
  | inl (none_found, passes) ↦ rw none_found (after passes)
  | inr (e, found) ↦ rw found before
]

pub insert_user-WellFormed :
    (row : UserRow) (db : Database) → WellFormed db → WellFormed (insert_user row db).1
unfolding insert_user
insert_user-WellFormed row db h =
    unless_violated-keeps WellFormed (user_tests row db) row db
      (record db { users = row ∷ db.users }) h
      (λ passes. record {
        one_active = h.one_active;
        distinct_ids = h.distinct_ids;
        bookings =
            All-imp (IsBooking db) (IsBooking (record db { users = row ∷ db.users })) db.bookings
              (λ b k. ground arith) h.bookings;
        distinct_emails = (ground arith, h.distinct_emails);
        roles = (ground arith, h.roles);
        capacities = h.capacities;
        one_per_room = h.one_per_room;
        schedules =
            All-imp (IsSchedule db) (IsSchedule (record db { users = row ∷ db.users })) db.schedules
              (λ s k. ground arith) h.schedules;
      })

pub insert_room-WellFormed :
    (row : RoomRow) (db : Database) → WellFormed db → WellFormed (insert_room row db).1
unfolding insert_room
insert_room-WellFormed row db h =
    unless_violated-keeps WellFormed (room_tests row db) tt db
      (record db { rooms = row ∷ db.rooms }) h
      (λ passes. record {
        one_active = h.one_active;
        distinct_ids = h.distinct_ids;
        bookings =
            All-imp (IsBooking db) (IsBooking (record db { rooms = row ∷ db.rooms })) db.bookings
              (λ b k. ground arith) h.bookings;
        distinct_emails = h.distinct_emails;
        roles = h.roles;
        capacities = (ground arith, h.capacities);
        one_per_room = h.one_per_room;
        schedules =
            All-imp (IsSchedule db) (IsSchedule (record db { rooms = row ∷ db.rooms })) db.schedules
              (λ s k. ground arith) h.schedules;
      })

pub insert_schedule-WellFormed :
    (row : ScheduleRow) (db : Database) → WellFormed db → WellFormed (insert_schedule row db).1
unfolding insert_schedule
insert_schedule-WellFormed row db h =
    unless_violated-keeps WellFormed (schedule_tests row db) tt db
      (record db { schedules = row ∷ db.schedules }) h
      (λ passes. record {
        one_active = h.one_active;
        distinct_ids = h.distinct_ids;
        bookings =
            All-imp (IsBooking db) (IsBooking (record db { schedules = row ∷ db.schedules }))
              db.bookings (λ b k. ground arith) h.bookings;
        distinct_emails = h.distinct_emails;
        roles = h.roles;
        capacities = h.capacities;
        one_per_room = (ground arith, h.one_per_room);
        schedules = (
          ground arith,
          All-imp (IsSchedule db) (IsSchedule (record db { schedules = row ∷ db.schedules }))
              db.schedules (λ s k. ground arith) h.schedules,
        );
      })

pub insert_booking-WellFormed :
    (row : BookingRow) (db : Database) → WellFormed db → WellFormed (insert_booking row db).1
unfolding insert_booking
insert_booking-WellFormed row db h =
    unless_violated-keeps WellFormed (booking_tests row db) tt db
      (record db { bookings = row ∷ db.bookings }) h
      (λ passes. record {
        one_active = ((λ active. ground arith), h.one_active);
        distinct_ids = (ground arith, h.distinct_ids);
        bookings = (
          ground arith,
          All-imp (IsBooking db) (IsBooking (record db { bookings = row ∷ db.bookings }))
              db.bookings (λ b k. ground arith) h.bookings,
        );
        distinct_emails = h.distinct_emails;
        roles = h.roles;
        capacities = h.capacities;
        one_per_room = h.one_per_room;
        schedules =
            All-imp (IsSchedule db) (IsSchedule (record db { bookings = row ∷ db.bookings }))
              db.schedules (λ s k. ground arith) h.schedules;
      })
