-- ===== src/Service/BookingService/Refinement/Booking.antt =====
-- Create in a quiet world against the abstract service, on every branch.
use room_booking.Base.{
  if◌then◌else◌, ℕ, GoString, Bool, true, false, not, text_eq, text_eq_refl, text_eq_iff,
  Bool-cases, ◌≡◌, inl, inr, refl, sym, ap,
}
use mathlib.Core.Path.{subst}
use room_booking.Domain.Time.{Time, utc, before}
use room_booking.Domain.Entities.{Uuid}
use room_booking.Domain.Codes.{role_user}
use room_booking.Domain.Errors.{errors_is, err, domain, forbidden, invalid_request, slot_not_found}
use room_booking.Slots.Generator.{is_start_at_within_schedule}
use room_booking.Storage.Tables.{ScheduleRow, Database, done, failed, no_rows}
use room_booking.Storage.Statements.{query_row}
use room_booking.Storage.World.Quiet.{quiet}
use room_booking.Storage.WellFormed.{WellFormed}
use room_booking.Storage.ScheduleRepository.{schedule_of_row}
use room_booking.Service.BookingService.{create}
use room_booking.Service.BookingService.Free.{create-quiet, schedule-has_room}
use room_booking.Service.SlotService.Available.{schedules_of, get_by_room_id-quiet}
use room_booking.Service.BookingService.Ledger.{Request, book, serve_request}
use room_booking.Service.BookingService.Refinement.{view, calendar_of, forget, perform, admitted}
use room_booking.Service.BookingService.Refinement.Insert.{
  Refined, unchanged, query_row-cases, on_admitted, insert-Refined,
}

module _ (db : Database) (zone : ℕ) (now : Time) (db_now : ℕ) (new_id : Uuid) (link_id : GoString)
    (user room : Uuid) (start : Time) (link : Bool) where
  abbrev pub asked : GoString → Request
  asked role = book now db_now new_id link_id user role room start link

  -- The request that comes to the schedule.
  abbrev asked_user : Request
  asked_user = asked role_user

  create-no_schedule :
      before (utc start) now ≡ false
      → query_row (schedules_of room db) ≡ failed no_rows
      → create now db_now new_id link_id user role_user room start link (quiet db zone)
        ≡ (err (domain slot_not_found), quiet db zone)
  unfolding create errors_is
  create-no_schedule coming none_found =
      rw (text_eq_refl role_user, coming) (rw (get_by_room_id-quiet room db zone, none_found) refl)

  create-off_schedule :
      (r : ScheduleRow)
      → before (utc start) now ≡ false
      → query_row (schedules_of room db) ≡ done r
      → is_start_at_within_schedule (schedule_of_row zone r) (utc start) ≡ false
      → create now db_now new_id link_id user role_user room start link (quiet db zone)
        ≡ (err (domain slot_not_found), quiet db zone)
  unfolding create
  create-off_schedule r coming found off =
      rw (text_eq_refl role_user, coming) (rw (get_by_room_id-quiet room db zone, found) (rw off))

  create-past :
      before (utc start) now ≡ true
      → create now db_now new_id link_id user role_user room start link (quiet db zone)
        ≡ (err (domain invalid_request), quiet db zone)
  unfolding create
  create-past past = rw (text_eq_refl role_user, past)

  create-forbidden :
      (role : GoString)
      → text_eq role role_user ≡ false
      → create now db_now new_id link_id user role room start link (quiet db zone)
        ≡ (err (domain forbidden), quiet db zone)
  unfolding create
  create-forbidden role other = rw other

  on_time-Refined :
      WellFormed db
      → before (utc start) now ≡ false
      → Refined db zone (perform asked_user (quiet db zone)) (
          if not (admitted zone (utc start) (query_row (schedules_of room db)))
          then (err (domain slot_not_found), view db.bookings)
          else (on_admitted db zone now db_now new_id link_id user room start link))
  on_time-Refined h coming = elim (query_row-cases (schedules_of room db)) [
    | inl none_found ↦ rw none_found (
        unchanged db zone (domain slot_not_found) (perform asked_user (quiet db zone))
          (ap forget (create-no_schedule coming none_found)))
    | inr (r, found) ↦
        rw found
          (elim (Bool-cases (is_start_at_within_schedule (schedule_of_row zone r) (utc start))) [
            | inl within ↦ rw within (
                subst
                  (λ p.
                    Refined db zone p
                      (on_admitted db zone now db_now new_id link_id user room start link))
                  (sym (
                    ap forget (
                      create-quiet db zone now db_now new_id link_id user room start link r coming
                        found within)))
                  (insert-Refined db zone now db_now new_id link_id user room start link
                    (schedule-has_room db room h found)))
            | inr off ↦ rw off (
                unchanged db zone (domain slot_not_found) (perform asked_user (quiet db zone))
                  (ap forget (create-off_schedule r coming found off)))
          ])
  ]

  abbrev pub Agrees : GoString → Type 0
  Agrees role =
      Refined db zone (perform (asked role) (quiet db zone))
        (serve_request (calendar_of db zone) (asked role) (view db.bookings))

  user-Agrees : WellFormed db → Agrees role_user
  user-Agrees h = elim (Bool-cases (before (utc start) now)) [
    | inl past ↦
        rw (text_eq_refl role_user, past)
          (unchanged db zone (domain invalid_request) (perform asked_user (quiet db zone))
            (ap forget (create-past past)))
    | inr coming ↦ rw (text_eq_refl role_user, coming) (on_time-Refined h coming)
  ]

  pub book-Refined : (role : GoString) → WellFormed db → Agrees role
  book-Refined role h = elim (Bool-cases (text_eq role role_user)) [
    | inl is_user ↦ subst Agrees (sym ((text_eq_iff role role_user).0 is_user)) (user-Agrees h)
    | inr other ↦ rw other (
        unchanged db zone (domain forbidden) (perform (asked role) (quiet db zone))
          (ap forget (create-forbidden role other)))
  ]
