-- ===== src/Service/BookingService/Cancelling.antt =====
-- `BookingService.Cancel` in a quiet world.
use room_booking.Base.{
  ℕ, List, [], ◌∷◌, Option, none, some, true, false, not, ◌==◌, ==_iff, text_eq_refl, ◌≡◌, inl, inr,
  refl, ap, sym, ◌∙◌, arith, Bool-cases, keep, if◌then◌else◌,
}
use room_booking.Domain.Entities.{Uuid, Booking}
use room_booking.Domain.Codes.{role_user}
use room_booking.Domain.Errors.{ok, err, domain, forbidden}
use room_booking.Storage.Tables.{BookingRow, Database, done, SqlResult}
use room_booking.Storage.Statements.{query_row}
use room_booking.Storage.Bookings.{
  taken, is_active, coalesce, cancelled_row, cancel_rows, select_booking, cancel_booking, occupies,
}
use room_booking.Storage.World.{Action, run_sql, on_result, raise}
use room_booking.Storage.World.Quiet.{quiet}
use room_booking.Storage.World.Done.{done-injective, done-ne-failed, bind-worked}
use room_booking.Storage.BookingRepository as BookingRepository
use room_booking.Storage.BookingRepository.{booking_of_row, scanned}
use room_booking.Storage.WellFormed.{WellFormed, OneActive}
use room_booking.Storage.WellFormed.Cancelling.{taken-cancel_rows}
use room_booking.Service.BookingService.{cancel}
use room_booking.Service.BookingService.Creation.{taken-head}
use mathlib.Core.Path.{subst}

-- The row with an id.
abbrev pub booking_row : Uuid → List BookingRow → SqlResult BookingRow
booking_row id rows = query_row (keep (λ (r : BookingRow). r.id == id) rows)

-- The database after the update.
abbrev pub after_cancel : Uuid → ℕ → Database → Database
after_cancel id now db = record db { bookings = cancel_rows id now db.bookings }

coalesce_twice : (t : Option ℕ) (now later : ℕ) → coalesce (coalesce t now) later ≡ coalesce t now
coalesce_twice none now later = refl
coalesce_twice (some t) now later = refl

taken-later :
    (room : Uuid) (start : ℕ) (r : BookingRow) (rows : List BookingRow)
    → taken room start rows ≡ true
    → taken room start (r ∷ rows) ≡ true
unfolding taken
taken-later room start r rows h = ground arith

pub occupies-key :
    (room : Uuid) (start : ℕ) (r : BookingRow)
    → occupies room start r ≡ true
    → (is_active r ≡ true) × (r.room_id ≡ room) × (r.start_at ≡ start)
occupies-key room start r h = ground arith

-- A row before an active one does not occupy the same start.
occupies-other :
    (r row : BookingRow) (rows : List BookingRow)
    → (is_active r ≡ true → taken r.room_id r.start_at rows ≡ false)
    → taken row.room_id row.start_at rows ≡ true
    → occupies row.room_id row.start_at r ≡ false
occupies-other r row rows once held = elim (Bool-cases (occupies row.room_id row.start_at r)) [
  | inl occupied ↦
      let (active, same_room, same_start) = occupies-key row.room_id row.start_at r occupied in
      let free : taken row.room_id row.start_at rows ≡ false =
        rw (same_room, same_start) at (once active) in
      absurd (cc (free, held))
  | inr free ↦ free
]

-- An active row that is found occupies its start.
found-taken :
    (id : Uuid) (rows : List BookingRow) {row : BookingRow}
    → booking_row id rows ≡ done row
    → is_active row ≡ true
    → taken row.room_id row.start_at rows ≡ true
unfolding taken
found-taken id [] e active = absurd (done-ne-failed (sym e))
found-taken id (r ∷ rows) {row} e active = elim (Bool-cases (r.id == id)) [
  | inl here ↦
      let same : done r ≡ done row = rw here at e in
      subst (λ x. taken x.room_id x.start_at (r ∷ rows) ≡ true) (done-injective same)
        (taken-head r rows (subst (λ x. is_active x ≡ true) (sym (done-injective same)) active))
  | inr not_here ↦
      taken-later row.room_id row.start_at r rows (found-taken id rows (rw not_here at e) active)
]

module _ (id : Uuid) (now : ℕ) where
  booking_row-cancel_rows :
      (rows : List BookingRow) {row : BookingRow}
      → booking_row id rows ≡ done row
      → booking_row id (cancel_rows id now rows) ≡ done (cancelled_row now row)
  unfolding cancel_rows
  booking_row-cancel_rows [] e = absurd (done-ne-failed (sym e))
  booking_row-cancel_rows (r ∷ rows) {row} e = elim (Bool-cases (r.id == id)) [
    | inl here ↦
        let same : done r ≡ done row = rw here at e in
        rw here (rw here (ap (λ x. done (cancelled_row now x)) (done-injective same)))
    | inr not_here ↦ rw not_here (rw not_here (booking_row-cancel_rows rows (rw not_here at e)))
  ]

  cancelled_twice :
      (later : ℕ) (row : BookingRow)
      → cancelled_row later (cancelled_row now row) ≡ cancelled_row now row
  cancelled_twice later row =
      ap (λ c. record (cancelled_row now row) { cancelled_at = c })
        (coalesce_twice row.cancelled_at now later)

  cancel_rows_twice :
      (later : ℕ) (rows : List BookingRow)
      → cancel_rows id later (cancel_rows id now rows) ≡ cancel_rows id now rows
  unfolding cancel_rows
  cancel_rows_twice later [] = refl
  cancel_rows_twice later (r ∷ rows) = elim (Bool-cases (r.id == id)) [
    | inl here ↦ rw here (rw here (rw (cancelled_twice later r, cancel_rows_twice later rows) refl))
    | inr not_here ↦ rw not_here (rw not_here (rw (cancel_rows_twice later rows) refl))
  ]

  -- The start of a cancelled booking is no longer taken.
  freed :
      (rows : List BookingRow) {row : BookingRow}
      → OneActive rows
      → booking_row id rows ≡ done row
      → is_active row ≡ true
      → taken row.room_id row.start_at (cancel_rows id now rows) ≡ false
  unfolding cancel_rows taken
  freed [] h e active = absurd (done-ne-failed (sym e))
  freed (r ∷ rows) {row} h e active = elim (Bool-cases (r.id == id)) [
    | inl here ↦
        let same : done r ≡ done row = rw here at e in
        let free = h.0 (subst (λ x. is_active x ≡ true) (sym (done-injective same)) active) in
        rw here (
          taken-cancel_rows id now row.room_id row.start_at rows
            (subst (λ x. taken x.room_id x.start_at rows ≡ false) (done-injective same) free))
    | inr not_here ↦
        let held = found-taken id rows (rw not_here at e) active in
        let other = occupies-other r row rows h.0 held in
        let rest = freed rows h.1 (rw not_here at e) active in rw not_here (rw (other, rest) refl)
  ]

module _ (db : Database) (zone : ℕ) (user id : Uuid) where
  pub get-quiet :
      BookingRepository.get_by_id id (quiet db zone)
      ≡ (scanned "select booking by id" zone (booking_row id db.bookings), quiet db zone)
  unfolding BookingRepository.get_by_id select_booking on_result run_sql
  get-quiet = refl

  update-quiet :
      (now : ℕ)
      → BookingRepository.cancel now id (quiet db zone) ≡ (
        scanned "cancel booking" zone (booking_row id (cancel_rows id now db.bookings)),
        quiet (after_cancel id now db) zone,
      )
  unfolding BookingRepository.cancel cancel_booking on_result run_sql
  update-quiet now = refl

  -- What follows the read of the booking.
  abbrev pub owned : ℕ → Booking → Action Booking
  owned now booking =
      if not (booking.user_id == user)
      then raise (domain forbidden)
      else BookingRepository.cancel now id

  found-quiet :
      (now : ℕ) {row : BookingRow}
      → booking_row id db.bookings ≡ done row
      → cancel now user role_user id (quiet db zone)
        ≡ owned now (booking_of_row zone row) (quiet db zone)
  unfolding cancel
  found-quiet now {row} found = rw (text_eq_refl role_user) (
      bind-worked (BookingRepository.get_by_id id) (owned now) (quiet db zone) (quiet db zone)
        (booking_of_row zone row)
        (get-quiet ∙ ap (λ r. (scanned "select booking by id" zone r, quiet db zone)) found))

  -- With no other client, the owner of a booking, with the role user, gets it back as cancelled,
  -- and the update of the rows with its id is all that changes.
  pub cancel_owner :
      (now : ℕ) {row : BookingRow}
      → booking_row id db.bookings ≡ done row
      → row.user_id ≡ user
      → cancel now user role_user id (quiet db zone)
        ≡ (ok (booking_of_row zone (cancelled_row now row)), quiet (after_cancel id now db) zone)
  unfolding booking_of_row
  cancel_owner now {row} found owner =
      found-quiet now found
      ∙ rw ((==_iff row.user_id user).1 owner) (
          update-quiet now
          ∙ ap (λ r. (scanned "cancel booking" zone r, quiet (after_cancel id now db) zone))
              (booking_row-cancel_rows id now db.bookings found))

  -- With no other client, a user who does not own a booking is refused with ErrForbidden when
  -- cancelling it, and nothing changes.
  pub cancel_other :
      (now : ℕ) {row : BookingRow}
      → booking_row id db.bookings ≡ done row
      → (row.user_id == user) ≡ false
      → cancel now user role_user id (quiet db zone) ≡ (err (domain forbidden), quiet db zone)
  unfolding booking_of_row
  cancel_other now found other = found-quiet now found ∙ rw other refl

-- With no other client, the owner who cancels a booking again, at any time, gets the same booking
-- as the first time, and nothing changes any more.
pub cancel_twice :
    (db : Database) (zone : ℕ) (user id : Uuid) (now later : ℕ) {row : BookingRow}
    → booking_row id db.bookings ≡ done row
    → row.user_id ≡ user
    → cancel later user role_user id (cancel now user role_user id (quiet db zone)).1
      ≡ cancel now user role_user id (quiet db zone)
cancel_twice db zone user id now later {row} found owner =
    let first = cancel_owner db zone user id now found owner in
    let second =
      cancel_owner (after_cancel id now db) zone user id later
        (booking_row-cancel_rows id now db.bookings found) owner in
    let same_rows = cancel_rows_twice id now later db.bookings in
    ap (λ p. cancel later user role_user id p.1) first
    ∙ (second
        ∙ (ap
              (λ r. (
                ok (booking_of_row zone r),
                quiet
                    (record db { bookings = cancel_rows id later (cancel_rows id now db.bookings) })
                    zone,
              ))
              (cancelled_twice id now later row)
            ∙ (ap
                  (λ rs. (
                    ok (booking_of_row zone (cancelled_row now row)),
                    quiet (record db { bookings = rs }) zone,
                  ))
                  same_rows
                ∙ sym first)))

-- With no other client, over a well-formed database, after the owner has cancelled an active
-- booking no active booking of the room holds its start.
pub cancel-freed :
    (db : Database) (zone : ℕ) (user id : Uuid) (now : ℕ) {row : BookingRow}
    → WellFormed db
    → booking_row id db.bookings ≡ done row
    → row.user_id ≡ user
    → is_active row ≡ true
    → taken row.room_id row.start_at (cancel now user role_user id (quiet db zone)).1.db.bookings
      ≡ false
cancel-freed db zone user id now {row} h found owner active =
    subst (λ rs. taken row.room_id row.start_at rs ≡ false)
      (sym (ap (λ p. p.1.db.bookings) (cancel_owner db zone user id now found owner)))
      (freed id now db.bookings h.one_active found active)
