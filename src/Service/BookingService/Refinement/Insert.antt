-- ===== src/Service/BookingService/Refinement/Insert.antt =====
-- The insert of a booking in a quiet world against the abstract service.
use room_booking.Base.{
  if◌then◌else◌, ℕ, ◌/◌, List, [], ◌∷◌, GoString, Bool, true, false, contains, has_prefix,
  Bool-cases, ◌≡◌, ◌⊎◌, inl, inr, refl, ap, ◌∙◌, arith,
}
use room_booking.Domain.Time.{Time, utc}
use room_booking.Domain.Entities.{Uuid}
use room_booking.Domain.Errors.{Error, Result, ok, err, domain, slot_already_booked}
use room_booking.Storage.Tables.{
  BookingRow, Database, done, failed, no_rows, DbError, unique_violation, foreign_key_violation,
  bookings_pkey, bookings_user_id_fkey, bookings_one_active_per_room_start_idx,
}
use room_booking.Storage.Statements.{query_row, has_room}
use room_booking.Storage.Bookings.{has_user, has_booking, taken, insert_booking}
use room_booking.Storage.World.{World, pure, ◌>>◌, to_timestamptz}
use room_booking.Storage.World.Quiet.{quiet}
use room_booking.Storage.World.Done.{then-failed}
use room_booking.Storage.Failures.{mentions}
use room_booking.Storage.BookingRepository as BookingRepository
use room_booking.Storage.BookingRepository.{row_of_booking}
use room_booking.Service.BookingService.Free.{
  mentions_itself, made, insert-quiet, stored-quiet, insert-free, insert-taken,
}
use room_booking.Service.BookingService.Ledger.{Ledger, is_some, not_inserted, reserved}
use room_booking.Service.BookingService.Refinement.{view, forget}
use room_booking.Service.BookingService.Refinement.Views.{
  is_some-holder, is_some-owner_in, view-cons,
}

-- The service answers as the abstract one does and leaves rows that show its ledger, in a world
-- that is as it was otherwise.
pub record Refined (db : Database) (zone : ℕ) (p : Result (Unit {0}) × World)
    (q : Result (Unit {0}) × Ledger) : Type 0 where
  pub rows : List BookingRow
  pub left : p ≡ (q.0, quiet (record db { bookings = rows }) zone)
  pub shown : view rows ≡ q.1

-- An error, and nothing changes.
pub unchanged :
    (db : Database) (zone : ℕ) (e : Error) (p : Result (Unit {0}) × World)
    → p ≡ (err e, quiet db zone)
    → Refined db zone p (err e, view db.bookings)
unchanged db zone e p h = record { rows = db.bookings; left = h; shown = refl }

pub query_row-cases :
    {A : Type 0} (rows : List A)
    → (query_row rows ≡ failed no_rows) ⊎ ((a : A) × (query_row rows ≡ done a))
query_row-cases [] = inl refl
query_row-cases (r ∷ rs) = inr (r, refl)

-- The constraint whose violation means that the slot is booked is not mentioned by the others.
pkey_not_mentioned :
    mentions (unique_violation bookings_pkey) bookings_one_active_per_room_start_idx ≡ false
unfolding mentions contains has_prefix
pkey_not_mentioned = refl

fkey_not_mentioned :
    mentions (foreign_key_violation bookings_user_id_fkey) bookings_one_active_per_room_start_idx
    ≡ false
unfolding mentions contains has_prefix
fkey_not_mentioned = refl

module _ (db : Database) (zone : ℕ) (now : Time) (db_now : ℕ) (new_id : Uuid) (link_id : GoString)
    (user room : Uuid) (start : Time) (link : Bool) where
  -- The world after the insert, if the schedule admits the start.
  abbrev pub inserted : Result (Unit {0}) × World
  inserted = forget (
      (BookingRepository.create db_now (made db zone now db_now new_id link_id user room start link)
          >> pure (made db zone now db_now new_id link_id user room start link))
        (quiet db zone))

  abbrev row : BookingRow
  row = row_of_booking db_now (made db zone now db_now new_id link_id user room start link)

  insert-used :
      has_booking new_id db.bookings ≡ true
      → insert_booking row db ≡ (failed (unique_violation bookings_pkey), db)
  unfolding insert_booking
  insert-used used = ground arith

  insert-unknown :
      has_booking new_id db.bookings ≡ false
      → taken room (to_timestamptz (utc start)) db.bookings ≡ false
      → has_room room db ≡ true
      → has_user user db ≡ false
      → insert_booking row db ≡ (failed (foreign_key_violation bookings_user_id_fkey), db)
  unfolding insert_booking
  insert-unknown fresh free room_known unknown = ground arith

  insert-failed :
      (e : DbError) (x : Error)
      → insert_booking row db ≡ (failed e, db)
      → BookingRepository.created (failed e) ≡ err x
      → inserted ≡ (err x, quiet db zone)
  insert-failed e x refused reported =
      let b = made db zone now db_now new_id link_id user room start link in
      ap forget (
        then-failed (BookingRepository.create db_now b) (pure b) (quiet db zone) (quiet db zone) x (
          insert-quiet db zone now db_now new_id link_id user room start link
          ∙ (ap (λ p. (BookingRepository.created p.0, quiet p.1 zone)) refused
              ∙ ap (λ r. (r, quiet db zone)) reported)))

  insert-worked :
      has_room room db ≡ true
      → has_user user db ≡ true
      → has_booking new_id db.bookings ≡ false
      → taken room (to_timestamptz (utc start)) db.bookings ≡ false
      → Refined db zone inserted
          (ok tt, reserved new_id user room ((utc start).nanos / 1000) (view db.bookings))
  insert-worked room_known user_known fresh free = record {
    rows = row ∷ db.bookings;
    left = ap forget (
        stored-quiet db zone now db_now new_id link_id user room start link (
          insert-free db zone now db_now new_id link_id user room start link room_known user_known
            fresh free));
    shown = view-cons row db.bookings refl;
  }

  -- What the abstract service answers once the schedule admits the start.
  abbrev pub on_admitted : Result (Unit {0}) × Ledger
  on_admitted =
      let l = view db.bookings in
      if is_some (l.owner new_id)
      then (err not_inserted, l)
      else if is_some (l.held room ((utc start).nanos / 1000))
      then (err (domain slot_already_booked), l)
      else if has_user user db
      then (ok tt, reserved new_id user room ((utc start).nanos / 1000) l)
      else (err not_inserted, l)

  insert_fresh-Refined :
      has_room room db ≡ true
      → has_booking new_id db.bookings ≡ false
      → taken room (to_timestamptz (utc start)) db.bookings ≡ false
      → Refined db zone inserted (
          if has_user user db
          then (ok tt, reserved new_id user room ((utc start).nanos / 1000) (view db.bookings))
          else (err not_inserted, view db.bookings))
  insert_fresh-Refined room_known fresh free = elim (Bool-cases (has_user user db)) [
    | inl user_known ↦ rw user_known (insert-worked room_known user_known fresh free)
    | inr unknown ↦ rw unknown (
        unchanged db zone not_inserted inserted (
          insert-failed (foreign_key_violation bookings_user_id_fkey) not_inserted
            (insert-unknown fresh free room_known unknown) (rw fkey_not_mentioned)))
  ]

  pub insert-Refined : has_room room db ≡ true → Refined db zone inserted on_admitted
  insert-Refined room_known = elim (Bool-cases (has_booking new_id db.bookings)) [
    | inl used ↦
        rw (is_some-owner_in new_id db.bookings, used)
          (unchanged db zone not_inserted inserted (
            insert-failed (unique_violation bookings_pkey) not_inserted (insert-used used)
              (rw pkey_not_mentioned)))
    | inr fresh ↦
        rw (is_some-owner_in new_id db.bookings, fresh)
          (elim (Bool-cases (taken room (to_timestamptz (utc start)) db.bookings)) [
            | inl held ↦
                rw (is_some-holder room (to_timestamptz (utc start)) db.bookings, held)
                  (unchanged db zone (domain slot_already_booked) inserted (
                    insert-failed (unique_violation bookings_one_active_per_room_start_idx)
                      (domain slot_already_booked)
                      (insert-taken db zone now db_now new_id link_id user room start link fresh
                        held)
                      (rw mentions_itself)))
            | inr free ↦
                rw (is_some-holder room (to_timestamptz (utc start)) db.bookings, free)
                  (insert_fresh-Refined room_known fresh free)
          ])
  ]
