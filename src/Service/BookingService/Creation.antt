-- ===== src/Service/BookingService/Creation.antt =====
-- `BookingService.Create` in any world.
use room_booking.Base.{
  ℕ, List, [], ◌∷◌, GoString, none, Bool, true, false, text_eq, text_eq_iff, ◌≡◌, inl, inr, refl,
  ap, sym, ◌∙◌, arith, Bool-cases,
}
use mathlib.Core.Path.{subst}
use room_booking.Domain.Time.{Time, utc, before}
use room_booking.Domain.Entities.{Uuid, Schedule, Booking}
use room_booking.Domain.Codes.{role_user}
use room_booking.Domain.Errors.{Result, ok, err, errors_is, schedule_not_found, ok-ne-err}
use room_booking.Slots.Generator.{is_start_at_within_schedule}
use room_booking.Storage.Tables.{
  BookingRow, Database, DbError, SqlResult, done, failed, bookings_one_active_per_room_start_idx,
}
use room_booking.Storage.Statements.{first_violation}
use room_booking.Storage.Bookings.{taken, is_active, booking_tests, insert_booking}
use room_booking.Storage.World.{World, on_result, to_timestamptz, pure, ◌>>◌}
use room_booking.Storage.World.Done.{run_sql-done, done-ne-failed, then-ok}
use room_booking.Storage.Failures.{mentions}
use room_booking.Storage.BookingRepository as BookingRepository
use room_booking.Storage.BookingRepository.{row_of_booking}
use room_booking.Storage.WellFormed.Inserts.{Passes, first_violation-cases}
use room_booking.Service.BookingService.{new_booking, on_schedule, create}

pub Passes-none : (tests : List (Bool × DbError)) → Passes tests → first_violation tests ≡ none
Passes-none [] h = refl
Passes-none ((holds, e) ∷ tests) h = rw h.0 (Passes-none tests h.1)

-- A booking that the repository has created is held by its room.
insert_booking-taken :
    (row : BookingRow) (db : Database)
    → (insert_booking row db).0 ≡ done tt
    → (insert_booking row db).1.bookings ≡ row ∷ db.bookings
unfolding insert_booking
insert_booking-taken row db e = elim (first_violation-cases (booking_tests row db)) [
  | inl (passed, _) ↦ rw passed
  | inr (violation, found) ↦ absurd (done-ne-failed (sym (rw found at e)))
]

created-done : (r : SqlResult (Unit {0})) → BookingRepository.created r ≡ ok tt → r ≡ done tt
created-done (done tt) e = refl
created-done (failed x) e = elim (Bool-cases (mentions x bookings_one_active_per_room_start_idx)) [
  | inl named ↦ absurd (ok-ne-err (sym (rw named at e)))
  | inr other ↦ absurd (ok-ne-err (sym (rw other at e)))
]

create-taken :
    (db_now : ℕ) (b : Booking) (w : World)
    → (BookingRepository.create db_now b w).0 ≡ ok tt
    → (before : Database) × ((BookingRepository.create db_now b w).1.db.bookings
        ≡ row_of_booking db_now b ∷ before.bookings)
unfolding BookingRepository.create on_result
create-taken db_now b w e =
    let (before, answered, left) =
      run_sql-done (insert_booking (row_of_booking db_now b)) w (created-done _ e) in
    (
      before,
      ap (λ d. d.bookings) left ∙ insert_booking-taken (row_of_booking db_now b) before answered,
    )

pub taken-head :
    (row : BookingRow) (rows : List BookingRow)
    → is_active row ≡ true
    → taken row.room_id row.start_at (row ∷ rows) ≡ true
unfolding taken
taken-head row rows active = ground arith

-- The row of the booking has been added to some rows.
abbrev pub Added : ℕ → Booking → World → Type 0
Added db_now b w = (old : List BookingRow) × (w.db.bookings ≡ row_of_booking db_now b ∷ old)

-- The insert and the return of the booking.
stored-ok :
    (db_now : ℕ) (made : Booking) (w : World) {b : Booking}
    → ((BookingRepository.create db_now made >> pure made) w).0 ≡ ok b
    → (b ≡ made) × Added db_now made ((BookingRepository.create db_now made >> pure made) w).1
stored-ok db_now made w h =
    let (worked, same, left) = then-ok (BookingRepository.create db_now made) made w h in
    let (old, rows) = create-taken db_now made w worked in
    (same, (old.bookings, (ap (λ w'. w'.db.bookings) left ∙ rows)))

-- The booking that `Create` makes of its arguments.
module _ (now : Time) (db_now : ℕ) (new_id : Uuid) (link_id : GoString) (user : Uuid) (room : Uuid)
    (start : Time) (link : Bool) where
  abbrev made : Booking
  made = new_booking new_id link_id user room (utc start) link

  on_schedule-ok :
      (r : Result Schedule) (w : World) {b : Booking}
      → (on_schedule db_now made r w).0 ≡ ok b
      → (schedule : Schedule) × (r ≡ ok schedule)
        × (is_start_at_within_schedule schedule (utc start) ≡ true)
        × (b ≡ made)
        × Added db_now made (on_schedule db_now made r w).1
  on_schedule-ok (err e) w h = elim (Bool-cases (errors_is e schedule_not_found)) [
    | inl missing ↦ absurd (ok-ne-err (sym (rw missing at h)))
    | inr other ↦ absurd (ok-ne-err (sym (rw other at h)))
  ]
  on_schedule-ok (ok schedule) w h =
      elim (Bool-cases (is_start_at_within_schedule schedule (utc start))) [
        | inl within ↦
            let (same, added) = stored-ok db_now made w (rw within at h) in
            rw within (schedule, refl, within, same, added)
        | inr outside ↦ absurd (ok-ne-err (sym (rw outside at h)))
      ]

  -- When Create succeeds, its booking is the one described by the arguments, and has been added.
  pub create-Added :
      (role : GoString) (w : World) {b : Booking}
      → (create now db_now new_id link_id user role room start link w).0 ≡ ok b
      → (role ≡ role_user)
        × (before (utc start) now ≡ false)
        × (b ≡ made)
        × Added db_now made (create now db_now new_id link_id user role room start link w).1
  unfolding create
  create-Added role w h = elim (Bool-cases (text_eq role role_user)) [
    | inr other_role ↦ absurd (ok-ne-err (sym (rw other_role at h)))
    | inl a_user ↦ elim (Bool-cases (before (utc start) now)) [
      | inl past ↦ absurd (ok-ne-err (sym (rw (a_user, past) at h)))
      | inr coming ↦
          let (schedule, read, within, same, added) =
            on_schedule-ok _ _ (rw (a_user, coming) at h) in
          rw (a_user, coming) ((text_eq_iff role role_user).0 a_user, refl, same, added)
    ]
  ]

  -- Whatever other clients write and however the connection fails: when Create succeeds, the caller
  -- has the role user, the start is not in the past, the booking is the one described by the
  -- arguments, and an active booking of the room holds the start.
  pub create_sound :
      (role : GoString) (w : World) {b : Booking}
      → (create now db_now new_id link_id user role room start link w).0 ≡ ok b
      → (role ≡ role_user)
        × (before (utc start) now ≡ false)
        × (b ≡ made)
        × (taken room
              (to_timestamptz (utc start))
              (create now db_now new_id link_id user role room start link w).1.db.bookings
            ≡ true)
  create_sound role w h =
      let (user_role, coming, same, added) = create-Added role w h in
      let (old, rows) = added in
      (
        user_role,
        coming,
        same,
        subst (λ rs. taken room (to_timestamptz (utc start)) rs ≡ true) (sym rows)
            (taken-head (row_of_booking db_now made) old refl),
      )
