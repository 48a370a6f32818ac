-- ===== src/Service/BookingService/Free.antt =====
-- `BookingService.Create` in a quiet world, on starts that are free and on starts that are taken.
use room_booking.Base.{
  ℕ, List, ◌∷◌, GoString, Bool, true, false, not, ◌==◌, ==_iff, text_eq_refl, ◌≡◌, refl, ap, ◌∙◌,
  arith, contains, has_prefix,
}
use mathlib.Core.Path.{subst}
use room_booking.Domain.Time.{Time, utc, before}
use room_booking.Domain.Entities.{Uuid, Slot, Booking}
use room_booking.Domain.Codes.{role_user}
use room_booking.Domain.Errors.{ok, err, domain, slot_already_booked}
use room_booking.Slots.Generator.{is_start_at_within_schedule}
use room_booking.Slots.Generator.Loop.{Offers}
use room_booking.Storage.Tables.{
  ScheduleRow, Database, done, failed, unique_violation, bookings_one_active_per_room_start_idx,
}
use room_booking.Storage.Statements.{query_row, has_room}
use room_booking.Storage.Bookings.{taken, has_user, has_booking, booking_tests, insert_booking}
use room_booking.Storage.World.{run_sql, on_result, to_timestamptz, pure, ◌>>◌}
use room_booking.Storage.World.Quiet.{quiet}
use room_booking.Storage.World.Done.{then-worked, then-failed}
use room_booking.Storage.Failures.{mentions}
use room_booking.Storage.ScheduleRepository.{schedule_of_row}
use room_booking.Storage.BookingRepository as BookingRepository
use room_booking.Storage.BookingRepository.{row_of_booking}
use room_booking.Storage.WellFormed.{WellFormed, IsSchedule}
use room_booking.Storage.WellFormed.Inserts.{Passes}
use room_booking.Service.SlotService.{list_available_by_room_and_date}
use room_booking.Service.SlotService.Available.{
  IsFree, schedules_of, get_by_room_id-quiet, All-query_row, query_row-passes, list_available_iff,
}
use room_booking.Service.BookingService.{new_booking, create}
use room_booking.Service.BookingService.Creation.{Passes-none, create_sound}
use room_booking.Service.Invariant.{create_booking_call-Keeps}

-- The room of a schedule that is found is there.
pub schedule-has_room :
    (db : Database) (room : Uuid) {row : ScheduleRow}
    → WellFormed db
    → query_row (schedules_of room db) ≡ done row
    → has_room room db ≡ true
schedule-has_room db room {row} h found =
    let valid =
      All-query_row (IsSchedule db) (λ r. r.room_id == room) db.schedules h.schedules found in
    subst (λ k. has_room k db ≡ true)
      ((==_iff row.room_id room).0
        (query_row-passes (λ (r : ScheduleRow). r.room_id == room) db.schedules found))
      valid.room_known

pub mentions_itself :
    mentions
      (unique_violation bookings_one_active_per_room_start_idx)
      bookings_one_active_per_room_start_idx
    ≡ true
unfolding mentions contains has_prefix
mentions_itself = refl

module _ (db : Database) (zone : ℕ) (now : Time) (db_now : ℕ) (new_id : Uuid) (link_id : GoString)
    (user room : Uuid) (start : Time) (link : Bool) where
  abbrev pub made : Booking
  made = new_booking new_id link_id user room (utc start) link

  -- The call comes to the insert, once the schedule admits the start.
  pub create-quiet :
      (row : ScheduleRow)
      → before (utc start) now ≡ false
      → query_row (schedules_of room db) ≡ done row
      → is_start_at_within_schedule (schedule_of_row zone row) (utc start) ≡ true
      → create now db_now new_id link_id user role_user room start link (quiet db zone)
        ≡ (BookingRepository.create db_now made >> pure made) (quiet db zone)
  unfolding create
  create-quiet row coming found within =
      rw (text_eq_refl role_user, coming)
        (rw (get_by_room_id-quiet room db zone, found) (rw within))

  pub insert-quiet : BookingRepository.create db_now made (quiet db zone) ≡ (
    BookingRepository.created (insert_booking (row_of_booking db_now made) db).0,
    quiet (insert_booking (row_of_booking db_now made) db).1 zone,
  )
  unfolding BookingRepository.create on_result run_sql
  insert-quiet = refl

  pub stored-quiet :
      {db' : Database}
      → insert_booking (row_of_booking db_now made) db ≡ (done tt, db')
      → (BookingRepository.create db_now made >> pure made) (quiet db zone)
        ≡ (ok made, quiet db' zone)
  stored-quiet {db'} e =
      then-worked (BookingRepository.create db_now made) made (quiet db zone) (quiet db' zone)
        (insert-quiet ∙ ap (λ p. (BookingRepository.created p.0, quiet p.1 zone)) e)

  refused-quiet :
      insert_booking (row_of_booking db_now made) db
        ≡ (failed (unique_violation bookings_one_active_per_room_start_idx), db)
      → (BookingRepository.create db_now made >> pure made) (quiet db zone)
        ≡ (err (domain slot_already_booked), quiet db zone)
  refused-quiet e =
      then-failed (BookingRepository.create db_now made) (pure made) (quiet db zone) (quiet db zone)
        (domain slot_already_booked)
        (insert-quiet
          ∙ (ap (λ p. (BookingRepository.created p.0, quiet p.1 zone)) e
              ∙ rw (mentions_itself) refl))

  pub insert-free :
      has_room room db ≡ true
      → has_user user db ≡ true
      → has_booking new_id db.bookings ≡ false
      → taken room (to_timestamptz (utc start)) db.bookings ≡ false
      → insert_booking (row_of_booking db_now made) db
        ≡ (done tt, record db { bookings = row_of_booking db_now made ∷ db.bookings })
  unfolding insert_booking
  insert-free room_known user_known fresh free =
      let passes : Passes (booking_tests (row_of_booking db_now made) db) = (
        ground arith,
        (ground arith, (ap not fresh, (ap not free, (room_known, (user_known, (refl, tt)))))),
      ) in
      rw (Passes-none (booking_tests (row_of_booking db_now made) db) passes)

  pub insert-taken :
      has_booking new_id db.bookings ≡ false
      → taken room (to_timestamptz (utc start)) db.bookings ≡ true
      → insert_booking (row_of_booking db_now made) db
        ≡ (failed (unique_violation bookings_one_active_per_room_start_idx), db)
  unfolding insert_booking
  insert-taken fresh held = ground arith

  -- With no other client and a connection that does not fail, over a well-formed database, a start
  -- that is free, not in the past, with a known user and a new id, is booked: the answer is the
  -- booking described by the arguments, and its row is all that is added.
  pub create_free :
      (at : Time)
      → WellFormed db
      → has_user user db ≡ true
      → has_booking new_id db.bookings ≡ false
      → before (utc start) now ≡ false
      → IsFree db zone room at (utc start)
      → create now db_now new_id link_id user role_user room start link (quiet db zone)
        ≡ (ok made, quiet (record db { bookings = row_of_booking db_now made ∷ db.bookings }) zone)
  create_free at h user_known fresh coming f =
      rw (create-quiet f.row coming f.found f.on_schedule)
        (stored-quiet (insert-free (schedule-has_room db room h f.found) user_known fresh f.free))

  -- With no other client and a connection that does not fail, a start that the schedule of the room
  -- admits, that is not in the past and that an active booking of the room holds is refused, for a
  -- new id, with ErrSlotAlreadyBooked, and nothing changes.
  pub create_booked :
      (row : ScheduleRow)
      → has_booking new_id db.bookings ≡ false
      → before (utc start) now ≡ false
      → query_row (schedules_of room db) ≡ done row
      → is_start_at_within_schedule (schedule_of_row zone row) (utc start) ≡ true
      → taken room (to_timestamptz (utc start)) db.bookings ≡ true
      → create now db_now new_id link_id user role_user room start link (quiet db zone)
        ≡ (err (domain slot_already_booked), quiet db zone)
  create_booked row fresh coming found within held =
      rw (create-quiet row coming found within) (refused-quiet (insert-taken fresh held))

-- After a successful booking over a well-formed database, with no other client, the slot list of
-- the room no longer offers its start.
pub create-not_offered :
    (db : Database) (zone : ℕ) (now : Time) (db_now : ℕ) (new_id : Uuid) (link_id : GoString)
    (user : Uuid) (role : GoString) (room : Uuid) (start : Time) (link : Bool) (at : Time)
    (db' : Database) {b : Booking} {slots : List Slot}
    → WellFormed db
    → create now db_now new_id link_id user role room start link (quiet db zone)
      ≡ (ok b, quiet db' zone)
    → (list_available_by_room_and_date room at (quiet db' zone)).0 ≡ ok slots
    → ¬ Offers (utc start) slots
create-not_offered db zone now db_now new_id link_id user role room start link at db' h e listed o =
    let (user_role, coming, same, held) =
      create_sound now db_now new_id link_id user room start link role (quiet db zone)
        (ap (λ p. p.0) e) in
    let left : (create now db_now new_id link_id user role room start link (quiet db zone)).1.db
        ≡ db' =
      ap (λ p. p.1.db) e in
    let well_formed : WellFormed db' = subst WellFormed left (
      (create_booking_call-Keeps now db_now new_id link_id user role room start link).keeps
        (quiet db zone) h) in
    let free = (list_available_iff db' zone room at (utc start) well_formed listed).0 o in
    let still_held : taken room (to_timestamptz (utc start)) db'.bookings ≡ true =
      subst (λ d. taken room (to_timestamptz (utc start)) d.bookings ≡ true) left held in
    cc (free.free, still_held)
