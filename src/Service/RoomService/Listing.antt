-- ===== src/Service/RoomService/Listing.antt =====
-- A room that `RoomService.Create` made, as `RoomService.List` shows it.
use room_booking.Base.{
  ℕ, ℤ, List, ◌∷◌, map, Listed, GoString, codes, Option, true, false, text_eq, Bool-cases, ◌≡◌, ◌↔◌,
  inl, inr, refl, sym, ap, ◌∙◌, arith,
}
use mathlib.Core.Path.{subst}
use room_booking.Domain.Entities.{Uuid, Room}
use room_booking.Domain.Errors.{ok, ok-ne-err}
use room_booking.Storage.Tables.{RoomRow, Database, SqlResult, done, failed}
use room_booking.Storage.Statements.{
  order_by, insert_room, room_tests, select_rooms, room_exists, has_room,
}
use room_booking.Storage.Statements.Order.{
  Ascending, order_by-Ascending, map-Ascending, Listed-order_by, Listed-map,
}
use room_booking.Storage.World.{World, run_sql, on_result}
use room_booking.Storage.World.Quiet.{quiet}
use room_booking.Storage.World.Done.{run_sql-done, done-ne-failed, then-ok}
use room_booking.Storage.RoomRepository as RoomRepository
use room_booking.Storage.RoomRepository.{row_of_room, room_of_row}
use room_booking.Storage.WellFormed.Inserts.{first_violation-cases}
use room_booking.Service.RoomService.{not_positive, new_room, create, list}

-- The list of the rooms, read in a quiet world.
list-quiet :
    (db : Database) (zone : ℕ)
    → list (quiet db zone)
      ≡ (ok (map (room_of_row zone) (order_by (λ r. r.created_at) db.rooms)), quiet db zone)
unfolding list RoomRepository.list select_rooms on_result run_sql
list-quiet db zone = refl

-- The rooms come in the order of their creation, and they are the rows of the table.
list_rooms_iff :
    (db : Database) (zone : ℕ)
    → (rooms : List Room) × (list (quiet db zone) ≡ (ok rooms, quiet db zone))
      × Ascending (λ (r : Room). r.created_at.nanos) rooms
      × ((r : Room)
          → Listed r rooms ↔ ((row : RoomRow) × Listed row db.rooms × (r ≡ room_of_row zone row)))
unfolding room_of_row
list_rooms_iff db zone =
    let sorted = order_by (λ (r : RoomRow). r.created_at) db.rooms in
    (
      map (room_of_row zone) sorted,
      list-quiet db zone,
      (map-Ascending (λ (r : RoomRow). r.created_at) (room_of_row zone)
          (λ (r : Room). r.created_at.nanos) (λ r s below. omega arith) sorted
          (order_by-Ascending (λ r. r.created_at) db.rooms)),
      λ r. (
        (λ l.
            let (row, found, same) = (Listed-map (room_of_row zone) r sorted).0 l in
            (row, (Listed-order_by (λ r. r.created_at) row db.rooms).0 found, same)),
        (λ l.
            let (row, stored, same) = l in
            (Listed-map (room_of_row zone) r sorted).1
              (row, (Listed-order_by (λ r. r.created_at) row db.rooms).1 stored, same)),
      ),
    )

insert_room-done :
    (row : RoomRow) (db : Database)
    → (insert_room row db).0 ≡ done tt
    → (insert_room row db).1.rooms ≡ row ∷ db.rooms
unfolding insert_room
insert_room-done row db e = elim (first_violation-cases (room_tests row db)) [
  | inl (passed, _) ↦ rw passed refl
  | inr (violation, found) ↦ absurd (done-ne-failed (sym (rw found at e)))
]

created-done : (r : SqlResult (Unit {0})) → RoomRepository.created r ≡ ok tt → r ≡ done tt
created-done (done tt) e = refl
created-done (failed x) e = absurd (ok-ne-err (sym e))

repository-added :
    (db_now : ℕ) (room : Room) (w : World)
    → (RoomRepository.create db_now room w).0 ≡ ok tt
    → (old : List RoomRow) × ((RoomRepository.create db_now room w).1.db.rooms
        ≡ row_of_room db_now room ∷ old)
unfolding RoomRepository.create on_result
repository-added db_now room w e =
    let (before, answered, left) =
      run_sql-done (insert_room (row_of_room db_now room)) w (created-done _ e) in
    (
      before.rooms,
      ap (λ d. d.rooms) left ∙ insert_room-done (row_of_room db_now room) before answered,
    )

has_room-head :
    (row : RoomRow) (old : List RoomRow) (db : Database)
    → db.rooms ≡ row ∷ old
    → has_room row.id db ≡ true
has_room-head row old db e = rw e (ground arith)

module _ (db_now : ℕ) (new_id : Uuid) (name : GoString) (description : Option GoString)
    (capacity : Option ℤ) where
  create-Added :
      (w : World) {room : Room}
      → (create db_now new_id name description capacity w).0 ≡ ok room
      → (text_eq name (codes "") ≡ false)
        × (not_positive capacity ≡ false)
        × (room ≡ new_room new_id name description capacity)
        × ((old : List RoomRow) × ((create db_now new_id name description capacity w).1.db.rooms
              ≡ row_of_room db_now (new_room new_id name description capacity) ∷ old))
  unfolding create
  create-Added w e = elim (Bool-cases (text_eq name (codes ""))) [
    | inl blank ↦ absurd (ok-ne-err (sym (rw blank at e)))
    | inr named ↦ elim (Bool-cases (not_positive capacity)) [
      | inl small ↦ absurd (ok-ne-err (sym (rw (named, small) at e)))
      | inr fits ↦
          let made = new_room new_id name description capacity in
          let (worked, same, left) =
            then-ok (RoomRepository.create db_now made) made w (rw (named, fits) at e) in
          let (old, rows) = repository-added db_now made w worked in
          rw (named, fits) (refl, refl, same, (old, ap (λ w'. w'.db.rooms) left ∙ rows))
    ]
  ]

  -- Whatever other clients write and however the connection fails: when Create of the room service
  -- succeeds, the name is not empty and the capacity, if given, is positive; the list of rooms,
  -- read with no other client and a connection that does not fail, comes in the order of creation
  -- and has the new room, with the time of its insert, and the room exists for the other services.
  pub list-create :
      (w : World) (zone : ℕ) {room : Room}
      → (create db_now new_id name description capacity w).0 ≡ ok room
      → (text_eq name (codes "") ≡ false)
        × (not_positive capacity ≡ false)
        × ((rooms : List Room) × ((list
                (quiet (create db_now new_id name description capacity w).1.db zone)).0
              ≡ ok rooms)
            × Ascending (λ (r : Room). r.created_at.nanos) rooms
            × Listed (room_of_row zone (row_of_room db_now room)) rooms)
        × ((RoomRepository.exists new_id
              (quiet (create db_now new_id name description capacity w).1.db zone)).0
            ≡ ok true)
  unfolding RoomRepository.exists on_result run_sql room_exists
  list-create w zone e =
      let made = new_room new_id name description capacity in
      let after = (create db_now new_id name description capacity w).1.db in
      let (named, fits, same, added) = create-Added w e in
      let (old, rows) = added in
      let (rooms, read, ordered, exact) = list_rooms_iff after zone in
      (
        named,
        fits,
        (
          rooms,
          ap (λ p. p.0) read,
          ordered,
          (exact _).1 (
            row_of_room db_now made,
            subst (λ rs. Listed (row_of_room db_now made) rs) (sym rows) (inl refl),
            ap (λ r. room_of_row zone (row_of_room db_now r)) same,
          ),
        ),
        ap ok (has_room-head (row_of_room db_now made) old after rows),
      )
