-- ===== src/Service/BookingService/Refinement/Runs.antt =====
-- Cancel in a quiet world against the abstract service, and runs of any requests.
use room_booking.Base.{
  ℕ, List, [], ◌∷◌, GoString, false, ◌==◌, keep, text_eq, text_eq_refl, text_eq_iff, Bool-cases,
  ◌≡◌, inl, inr, refl, sym, ap, ◌∙◌, arith,
}
use mathlib.Core.Path.{subst}
use room_booking.Domain.Entities.{Uuid}
use room_booking.Domain.Codes.{role_user}
use room_booking.Domain.Errors.{Result, ok, err, domain, forbidden, booking_not_found}
use room_booking.Storage.Tables.{BookingRow, Database, done, failed, no_rows}
use room_booking.Storage.Bookings.{cancel_rows}
use room_booking.Storage.World.{World, ◌>>=◌}
use room_booking.Storage.World.Quiet.{quiet}
use room_booking.Storage.WellFormed.{WellFormed}
use room_booking.Storage.BookingRepository.{scanned}
use room_booking.Service.Invariant.{create_booking_call-Keeps, cancel_booking_call-Keeps}
use room_booking.Service.BookingService.{cancel, create}
use room_booking.Service.BookingService.Cancelling.{
  booking_row, get-quiet, cancel_owner, cancel_other, owned,
}
use room_booking.Service.BookingService.Ledger.{Request, book, drop, serve_request, serve_requests}
use room_booking.Service.BookingService.Refinement.{view, calendar_of, forget, perform, perform_all}
use room_booking.Service.BookingService.Refinement.Views.{owner_in-booking_row, view-cancel_rows}
use room_booking.Service.BookingService.Refinement.Insert.{Refined, unchanged, query_row-cases}
use room_booking.Service.BookingService.Refinement.Booking.{book-Refined}

module _ (db : Database) (zone : ℕ) (user id : Uuid) (now : ℕ) where
  cancel-forbidden :
      (role : GoString)
      → text_eq role role_user ≡ false
      → cancel now user role id (quiet db zone) ≡ (err (domain forbidden), quiet db zone)
  unfolding cancel
  cancel-forbidden role other = rw other

  cancel-missing :
      booking_row id db.bookings ≡ failed no_rows
      → cancel now user role_user id (quiet db zone)
        ≡ (err (domain booking_not_found), quiet db zone)
  unfolding cancel
  cancel-missing missing = rw (text_eq_refl role_user) (
      ap (λ p. ◌>>=◌ (λ (_ : World). p) (owned db zone user id now) (quiet db zone))
        (get-quiet db zone user id
          ∙ ap (λ r. (scanned "select booking by id" zone r, quiet db zone)) missing))

  abbrev DropAgrees : GoString → Type 0
  DropAgrees role =
      Refined db zone (perform (drop now user role id) (quiet db zone))
        (serve_request (calendar_of db zone) (drop now user role id) (view db.bookings))

  found-DropAgrees :
      {row : BookingRow}
      → WellFormed db
      → booking_row id db.bookings ≡ done row
      → DropAgrees role_user
  found-DropAgrees {row} h found = elim (Bool-cases (row.user_id == user)) [
    | inl own ↦
        rw (text_eq_refl role_user, owner_in-booking_row id db.bookings, found, own)
          (record {
            rows = cancel_rows id now db.bookings;
            left = ap forget (cancel_owner db zone user id now found (ground (arith, own)));
            shown = view-cancel_rows id now db.bookings h.one_active;
          })
    | inr other ↦
        rw (text_eq_refl role_user, owner_in-booking_row id db.bookings, found, other)
          (unchanged db zone (domain forbidden)
            (perform (drop now user role_user id) (quiet db zone))
            (ap forget (cancel_other db zone user id now found other)))
  ]

  user-DropAgrees : WellFormed db → DropAgrees role_user
  user-DropAgrees h = elim (query_row-cases (keep (λ (r : BookingRow). r.id == id) db.bookings)) [
    | inl missing ↦
        rw (text_eq_refl role_user, owner_in-booking_row id db.bookings, missing)
          (unchanged db zone (domain booking_not_found)
            (perform (drop now user role_user id) (quiet db zone))
            (ap forget (cancel-missing missing)))
    | inr (row, found) ↦ found-DropAgrees h found
  ]

  drop-Refined : (role : GoString) → WellFormed db → DropAgrees role
  drop-Refined role h = elim (Bool-cases (text_eq role role_user)) [
    | inl is_user ↦
        subst DropAgrees (sym ((text_eq_iff role role_user).0 is_user)) (user-DropAgrees h)
    | inr other ↦ rw other (
        unchanged db zone (domain forbidden) (perform (drop now user role id) (quiet db zone))
          (ap forget (cancel-forbidden role other)))
  ]

pub perform-Refined :
    (db : Database) (zone : ℕ) (q : Request)
    → WellFormed db
    → Refined db zone
        (perform q (quiet db zone))
        (serve_request (calendar_of db zone) q (view db.bookings))
perform-Refined db zone (book now db_now new_id link_id user role room start link) h =
    book-Refined db zone now db_now new_id link_id user room start link role h
perform-Refined db zone (drop now user role id) h = drop-Refined db zone user id now role h

forget-world : {A : Type 0} (p : Result A × World) → (forget p).1 ≡ p.1
forget-world (ok a, w) = refl
forget-world (err e, w) = refl

perform-WellFormed :
    (db : Database) (zone : ℕ) (q : Request)
    → WellFormed db
    → WellFormed (perform q (quiet db zone)).1.db
perform-WellFormed db zone (book now db_now new_id link_id user role room start link) h =
    subst (λ (w : World). WellFormed w.db)
      (sym
        (forget-world (create now db_now new_id link_id user role room start link (quiet db zone))))
      ((create_booking_call-Keeps now db_now new_id link_id user role room start link).keeps
        (quiet db zone) h)
perform-WellFormed db zone (drop now user role id) h =
    subst (λ (w : World). WellFormed w.db)
      (sym (forget-world (cancel now user role id (quiet db zone))))
      ((cancel_booking_call-Keeps now user role id).keeps (quiet db zone) h)

-- The replies are those of the abstract service, and the bookings at the end show its ledger.
pub record RunRefined (db : Database) (zone : ℕ) (qs : List Request) : Type 0 where
  pub replies :
      (perform_all qs (quiet db zone)).0
      ≡ (serve_requests (calendar_of db zone) qs (view db.bookings)).0
  pub ledger :
      view (perform_all qs (quiet db zone)).1.db.bookings
      ≡ (serve_requests (calendar_of db zone) qs (view db.bookings)).1

-- With no other client and a connection that does not fail, over a well-formed database, any
-- sequence of calls of Create and Cancel gets, the bookings returned aside, the replies of the
-- abstract booking service, which knows only who holds a start, whose a booking is, the starts that
-- the schedules admit and the known users, and at the end the bookings show the ledger of the
-- abstract service.
pub perform_all-RunRefined :
    (db : Database) (zone : ℕ) (qs : List Request) → WellFormed db → RunRefined db zone qs
unfolding perform_all serve_requests
perform_all-RunRefined db zone [] h = record { replies = refl; ledger = refl }
perform_all-RunRefined db zone (q ∷ qs) h =
    let r = perform-Refined db zone q h in
    let db' : Database = record db { bookings = r.rows } in
    let h' : WellFormed db' =
      subst (λ p. WellFormed p.1.db) r.left (perform-WellFormed db zone q h) in
    let rest = perform_all-RunRefined db' zone qs h' in
    let c = calendar_of db zone in
    let reply = (serve_request c q (view db.bookings)).0 in
    record {
      replies =
          ap (λ p. p.0 ∷ (perform_all qs p.1).0) r.left
          ∙ (ap (λ rs. reply ∷ rs) rest.replies
              ∙ ap (λ l. reply ∷ (serve_requests c qs l).0) r.shown);
      ledger =
          ap (λ p. view (perform_all qs p.1).1.db.bookings) r.left
          ∙ (rest.ledger ∙ ap (λ l. (serve_requests c qs l).1) r.shown);
    }
