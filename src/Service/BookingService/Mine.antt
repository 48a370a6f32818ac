-- ===== src/Service/BookingService/Mine.antt =====
-- `BookingService.ListMy`: which bookings a user sees, and in which order.
use room_booking.Base.{
  ℕ, ◌≤◌, List, map, keep, Listed, text_eq, leb, ◌==◌, ◌&&◌, ◌≡◌, ◌↔◌, GoString, Bool, inl, refl,
  sym, ap, arith,
}
use mathlib.Core.Path.{subst}
use room_booking.Domain.Time.{Time, utc}
use room_booking.Domain.Entities.{Uuid, Booking}
use room_booking.Domain.Codes.{role_user}
use room_booking.Domain.Errors.{ok}
use room_booking.Storage.Tables.{BookingRow, Database}
use room_booking.Storage.Statements.{order_by}
use room_booking.Storage.Statements.Order.{
  Ascending, order_by-Ascending, map-Ascending, Listed-order_by, Listed-keep, Listed-map,
}
use room_booking.Storage.Bookings.{select_bookings_from}
use room_booking.Storage.World.{run_sql, World, on_result, to_timestamptz}
use room_booking.Storage.World.Quiet.{quiet}
use room_booking.Storage.BookingRepository as BookingRepository
use room_booking.Storage.BookingRepository.{booking_of_row, row_of_booking}
use room_booking.Service.BookingService.{list_my, create, new_booking}
use room_booking.Service.BookingService.Creation.{create-Added}

module _ (now : Time) (user : Uuid) (db : Database) (zone : ℕ) where
  -- A booking of the user, of any status, that does not start before `now`.
  pub record IsMine (b : Booking) : Type 0 where
    pub row : BookingRow
    pub stored : Listed row db.bookings
    pub shown : b ≡ booking_of_row zone row
    pub owned : row.user_id ≡ user
    pub to_come : to_timestamptz (utc now) ≤ row.start_at

  -- The rows that the statement selects.
  abbrev mine : List BookingRow
  mine = keep (λ r. r.user_id == user && leb (to_timestamptz (utc now)) r.start_at) db.bookings

  abbrev listed : List Booking
  listed = map (booking_of_row zone) (order_by (λ r. r.start_at) mine)

  list_my-listed : list_my now user role_user (quiet db zone) ≡ (ok listed, quiet db zone)
  unfolding list_my BookingRepository.list_by_user_future select_bookings_from on_result run_sql
      text_eq
  list_my-listed = refl

  listed-Ascending : Ascending (λ (b : Booking). b.start_at.nanos) listed
  unfolding booking_of_row
  listed-Ascending =
      map-Ascending (λ (r : BookingRow). r.start_at) (booking_of_row zone)
        (λ (b : Booking). b.start_at.nanos) (λ r s below. omega arith)
        (order_by (λ r. r.start_at) mine) (order_by-Ascending (λ r. r.start_at) mine)

  listed-IsMine : (b : Booking) → Listed b listed ↔ IsMine b
  listed-IsMine b = (
    (λ l.
        let (row, sorted, shown) = (Listed-map (booking_of_row zone) b _).0 l in
        let (stored, mine) =
          (Listed-keep _ row db.bookings).0 ((Listed-order_by (λ r. r.start_at) row _).0 sorted) in
        record {
          row = row;
          stored = stored;
          shown = shown;
          owned = ground (arith, mine);
          to_come = ground (arith, mine);
        }),
    (λ h. (Listed-map (booking_of_row zone) b _).1 (
      h.row,
      (Listed-order_by (λ r. r.start_at) h.row _).1
          ((Listed-keep _ h.row db.bookings).1 (h.stored, ground (arith, h.owned, h.to_come))),
      h.shown,
    )),
  )

  -- With no other client and a connection that does not fail, a user sees, in ascending order of
  -- their starts, exactly the own bookings, the cancelled ones too, that do not start before now,
  -- and nothing changes.
  pub list_my_iff :
      (bs : List Booking) × (list_my now user role_user (quiet db zone) ≡ (ok bs, quiet db zone))
      × Ascending (λ (b : Booking). b.start_at.nanos) bs
      × ((b : Booking) → Listed b bs ↔ IsMine b)
  list_my_iff = (listed, list_my-listed, listed-Ascending, listed-IsMine)

-- Whatever other clients write and however the connection fails: when Create succeeds, the list of
-- the user, read with no other client and a connection that does not fail while the start has not
-- passed, has the booking, with the time of its insert as the time of its creation.
pub list_my-create :
    (now : Time) (db_now : ℕ) (new_id : Uuid) (link_id : GoString) (user : Uuid) (role : GoString)
    (room : Uuid) (start : Time) (link : Bool) (w : World) (later : Time) (zone : ℕ) {b : Booking}
    → (create now db_now new_id link_id user role room start link w).0 ≡ ok b
    → to_timestamptz (utc later) ≤ to_timestamptz (utc start)
    → (bs : List Booking) × ((list_my later user role_user
          (quiet (create now db_now new_id link_id user role room start link w).1.db zone)).0
        ≡ ok bs)
      × Listed (booking_of_row zone (row_of_booking db_now b)) bs
list_my-create now db_now new_id link_id user role room start link w later zone e early =
    let (user_role, coming, same, added) =
      create-Added now db_now new_id link_id user room start link role w e in
    let (old, rows) = added in
    let (bs, read, ordered, exact) =
      list_my_iff later user (create now db_now new_id link_id user role room start link w).1.db
        zone in
    let made = new_booking new_id link_id user room (utc start) link in
    (
      bs,
      ap (λ p. p.0) read,
      (exact _).1 (record {
        row = row_of_booking db_now made;
        stored = subst (λ rs. Listed (row_of_booking db_now made) rs) (sym rows) (inl refl);
        shown = ap (λ b. booking_of_row zone (row_of_booking db_now b)) same;
        owned = refl;
        to_come = early;
      }),
    )
