-- ===== src/Service/BookingService/Refinement/Views.antt =====
-- The view of the rows after an insert and after an update.
use room_booking.Base.{
  ℕ, List, [], ◌∷◌, Option, none, some, true, false, ◌==◌, ◌&&◌, if◌then◌else◌, Bool-cases, ◌≡◌,
  inl, inr, refl, ap, arith,
}
use room_booking.Domain.Entities.{Uuid}
use room_booking.Storage.Tables.{BookingRow, SqlResult, done, failed}
use room_booking.Storage.Bookings.{taken, occupies, is_active, has_booking, cancel_rows}
use room_booking.Storage.WellFormed.{OneActive}
use room_booking.Service.BookingService.Cancelling.{booking_row, occupies-key}
use room_booking.Service.BookingService.Ledger.{is_some, without, released, reserved}
use room_booking.Service.BookingService.Refinement.{holder, owner_in, view}

pub is_some-holder :
    (room : Uuid) (start : ℕ) (rows : List BookingRow)
    → is_some (holder room start rows) ≡ taken room start rows
unfolding holder taken
is_some-holder room start [] = refl
is_some-holder room start (r ∷ rs) = ground (arith, is_some-holder room start rs)

pub is_some-owner_in :
    (id : Uuid) (rows : List BookingRow) → is_some (owner_in id rows) ≡ has_booking id rows
unfolding owner_in
is_some-owner_in id [] = refl
is_some-owner_in id (r ∷ rs) = ground (arith, is_some-owner_in id rs)

abbrev pub owner_of : SqlResult BookingRow → Option Uuid
owner_of (done r) = some r.user_id
owner_of (failed e) = none

pub owner_in-booking_row :
    (id : Uuid) (rows : List BookingRow) → owner_in id rows ≡ owner_of (booking_row id rows)
unfolding owner_in
owner_in-booking_row id [] = refl
owner_in-booking_row id (r ∷ rs) = ground (arith, owner_in-booking_row id rs)

holder-free :
    (room : Uuid) (start : ℕ) (rows : List BookingRow)
    → taken room start rows ≡ false
    → holder room start rows ≡ none
unfolding holder taken
holder-free room start [] h = refl
holder-free room start (r ∷ rs) h = ground (arith, holder-free room start rs)

-- No other row occupies the start of an active one.
rest-free :
    (room : Uuid) (start : ℕ) (r : BookingRow) (rs : List BookingRow)
    → OneActive (r ∷ rs)
    → occupies room start r ≡ true
    → holder room start rs ≡ none
rest-free room start r rs h o =
    let (active, same_room, same_start) = occupies-key room start r o in
    holder-free room start rs (rw (same_room, same_start) at (h.0 active))

module _ (id : Uuid) (now : ℕ) where
  owner_in-cancel_rows :
      (k : Uuid) (rows : List BookingRow) → owner_in k (cancel_rows id now rows) ≡ owner_in k rows
  unfolding owner_in cancel_rows
  owner_in-cancel_rows k [] = refl
  owner_in-cancel_rows k (r ∷ rs) = ground (arith, owner_in-cancel_rows k rs)

  holder-cancel_rows :
      (room : Uuid) (start : ℕ) (rows : List BookingRow)
      → OneActive rows
      → holder room start (cancel_rows id now rows) ≡ without id (holder room start rows)
  unfolding holder cancel_rows
  holder-cancel_rows room start [] h = refl
  holder-cancel_rows room start (r ∷ rs) h = elim (Bool-cases (occupies room start r)) [
    | inl o ↦ ground (arith, o, rest-free room start r rs h o, holder-cancel_rows room start rs h.1)
    | inr o ↦ ground (arith, o, holder-cancel_rows room start rs h.1)
  ]

  pub view-cancel_rows :
      (rows : List BookingRow)
      → OneActive rows
      → view (cancel_rows id now rows) ≡ released id (view rows)
  view-cancel_rows rows h = λ i. record {
    held = λ room start. holder-cancel_rows room start rows h i;
    owner = λ k. owner_in-cancel_rows k rows i;
  }

-- An active row, inserted.
pub view-cons :
    (r : BookingRow) (rows : List BookingRow)
    → is_active r ≡ true
    → view (r ∷ rows) ≡ reserved r.id r.user_id r.room_id r.start_at (view rows)
unfolding holder owner_in
view-cons r rows active =
    ap
      (λ b. record {
        held = λ room start.
            if b && (r.room_id == room && r.start_at == start)
            then some r.id
            else holder room start rows;
        owner = λ k. if r.id == k then some r.user_id else owner_in k rows;
      })
      active
