-- ===== src/Service/SlotService/Available.antt =====
-- `ListAvailableByRoomAndDate` in a quiet world, against a description of the free starts.
use room_booking.Base.{
  ℕ, ◌/◌, ◌%◌, List, [], ◌∷◌, map, any, keep, All, Bool, true, false, ◌==◌, ◌≡◌, ◌↔◌, ◌⊎◌, inl, inr,
  refl, ap, sym, ◌∙◌, arith, Bool-cases, ◌&&◌, leb, ltb,
}
use mathlib.Core.Path.{subst}
use room_booking.Domain.Time.{
  Time, utc, add, date, nanosecond_of, day, time_eq, utc_zone, civil_day,
}
use room_booking.Domain.Entities.{Uuid, Slot, Schedule}
use room_booking.Domain.Errors.{ok, errors_is, ok-injective, Result-cases, ok-ne-err}
use room_booking.Slots.Generator.{
  generate_slots_for_date, truncate_to_day_utc, is_start_at_within_schedule,
}
use room_booking.Slots.Generator.Loop.{Offers}
use room_booking.Slots.Generator.Agreement.{Offers-iff, Offers-utc, generate-end_parsed}
use room_booking.Storage.Tables.{ScheduleRow, BookingRow, Database, done, failed, no_rows}
use room_booking.Storage.Statements.{
  query_row, has_room, on_step, select_schedule_by_room, room_exists,
}
use room_booking.Storage.Bookings.{taken, is_active, select_active_starts}
use room_booking.Storage.World.{run_sql, on_result, to_timestamptz, from_timestamptz}
use room_booking.Storage.World.Quiet.{quiet}
use room_booking.Storage.World.Done.{done-injective, done-ne-failed}
use room_booking.Storage.ScheduleRepository as ScheduleRepository
use room_booking.Storage.ScheduleRepository.{schedule_of_row}
use room_booking.Storage.ScheduleRepository.RoundTrip.{parse_hhmm-trim_seconds}
use room_booking.Storage.RoomRepository as RoomRepository
use room_booking.Storage.BookingRepository as BookingRepository
use room_booking.Storage.WellFormed.{WellFormed, IsSchedule}
use room_booking.Service.SlotService.{
  less_booked, from_schedule, if_exists, list_available_by_room_and_date,
}
use room_booking.Service.SlotService.Free.{Offers-free_slots, booked-taken}

-- The rows that the query for a room's schedule finds.
abbrev pub schedules_of : Uuid → Database → List ScheduleRow
schedules_of room db = keep (λ (r : ScheduleRow). r.room_id == room) db.schedules

-- The start may be offered: the specification of a free slot.
pub record IsFree (db : Database) (zone : ℕ) (room : Uuid) (at t : Time) : Type 0 where
  pub row : ScheduleRow
  pub found : query_row (schedules_of room db) ≡ done row
  pub in_utc : t.zone ≡ utc_zone
  pub on_schedule : is_start_at_within_schedule (schedule_of_row zone row) t ≡ true
  pub on_date : civil_day t ≡ civil_day at
  pub free : taken room (to_timestamptz t) db.bookings ≡ false

pub get_by_room_id-quiet :
    (room : Uuid) (db : Database) (zone : ℕ)
    → ScheduleRepository.get_by_room_id room (quiet db zone)
      ≡ (ScheduleRepository.scanned zone (query_row (schedules_of room db)), quiet db zone)
unfolding ScheduleRepository.get_by_room_id on_result run_sql select_schedule_by_room
get_by_room_id-quiet room db zone = refl

pub exists-quiet :
    (room : Uuid) (db : Database) (zone : ℕ)
    → RoomRepository.exists room (quiet db zone) ≡ (ok (has_room room db), quiet db zone)
unfolding RoomRepository.exists on_result run_sql room_exists
exists-quiet room db zone = refl

pub query_row-passes :
    {A : Type 0} (q : A → Bool) (rows : List A) {r : A}
    → query_row (keep q rows) ≡ done r
    → q r ≡ true
query_row-passes q [] e = absurd (done-ne-failed (sym e))
query_row-passes q (x ∷ rows) {r} e = elim (Bool-cases (q x)) [
  | inl here ↦ let same : done x ≡ done r = rw here at e in ap q (sym (done-injective same)) ∙ here
  | inr not_here ↦ query_row-passes q rows (rw not_here at e)
]

-- A row that a query finds has the property of all rows.

pub All-query_row :
    (P : ScheduleRow → Type 0) (q : ScheduleRow → Bool) (rows : List ScheduleRow) {r : ScheduleRow}
    → All P rows
    → query_row (keep q rows) ≡ done r
    → P r
All-query_row P q [] h e = cc
All-query_row P q (x ∷ rows) {r} h e = elim (Bool-cases (q x)) [
  | inl here ↦ let same : done x ≡ done r = rw here at e in subst P (done-injective same) h.0
  | inr not_here ↦ All-query_row P q rows h.1 (rw not_here at e)
]

half_hour_of : (s : ℕ) → on_step s ≡ true → s / 60 % 60 % 30 ≡ 0
half_hour_of s h = ground arith

module _ (db : Database) (zone : ℕ) (well_formed : WellFormed db) (room : Uuid) (at t : Time) where
  -- The generated slots of a stored schedule.
  generated_iff :
      (row : ScheduleRow) {slots : List Slot}
      → query_row (schedules_of room db) ≡ done row
      → generate_slots_for_date (schedule_of_row zone row) at ≡ ok slots
      → Offers t slots ↔ (
          (t.zone ≡ utc_zone)
          × (is_start_at_within_schedule (schedule_of_row zone row) t ≡ true)
          × (civil_day t ≡ civil_day at))
  unfolding schedule_of_row
  generated_iff row {slots} found e =
      let valid =
        All-query_row (IsSchedule db) (λ r. r.room_id == room) db.schedules well_formed.schedules
          found in
      let start_parsed =
        parse_hhmm-trim_seconds row.start_time (omega (arith, valid.window, valid.end_in_day)) in
      let (end_of, end_parsed) = generate-end_parsed (schedule_of_row zone row) at start_parsed e in
      let agree =
        Offers-iff (schedule_of_row zone row) start_parsed end_parsed
          (half_hour_of row.start_time valid.start_step) t at in
      (
        (λ o.
            let in_utc = Offers-utc (schedule_of_row zone row) start_parsed end_parsed t at e o in
            let (within, same_day) = (agree in_utc e).0 o in (in_utc, within, same_day)),
        (λ h. (agree h.0 e).1 (h.1, h.2)),
      )

  -- The answer of the query for the booked starts of the date.
  booked_starts : List Time
  booked_starts =
      map (λ m. utc (from_timestamptz zone m))
        (map (λ r. r.start_at)
          (keep
            (λ (r : BookingRow).
              r.room_id == room
              && (is_active r
                  && (leb (to_timestamptz (date (civil_day at) 0 0)) r.start_at
                      && ltb r.start_at (to_timestamptz (add (date (civil_day at) 0 0) day)))))
            db.bookings))

  less_booked_iff :
      (slots : List Slot) {result : List Slot}
      → (less_booked room at slots (quiet db zone)).0 ≡ ok result
      → Offers t result
        ↔ (Offers t slots × (any (λ u. time_eq u t) (map utc booked_starts) ≡ false))
  unfolding booked_starts BookingRepository.list_active_starts_by_room_between on_result run_sql
      select_active_starts truncate_to_day_utc
  less_booked_iff [] {result} e = rw (sym (ok-injective e)) ((λ h. absurd h), (λ h. absurd h.0))
  less_booked_iff (s ∷ slots) {result} e =
      rw (sym (ok-injective e)) (Offers-free_slots booked_starts t (s ∷ slots))

  booked_starts-taken :
      t.zone ≡ utc_zone
      → nanosecond_of t ≡ 0
      → civil_day t ≡ civil_day at
      → any (λ u. time_eq u t) (map utc booked_starts) ≡ taken room (to_timestamptz t) db.bookings
  unfolding booked_starts
  booked_starts-taken in_utc whole same_day =
      booked-taken zone _ _ room t db.bookings in_utc (omega arith) (omega arith) (omega arith)

within-whole :
    (schedule : Schedule) (t : Time)
    → is_start_at_within_schedule schedule t ≡ true
    → nanosecond_of t ≡ 0
unfolding is_start_at_within_schedule
within-whole schedule t h = ground arith

pub query_row-cases :
    {A : Type 0} (rows : List A)
    → ((r : A) × (query_row rows ≡ done r)) ⊎ (query_row rows ≡ failed no_rows)
query_row-cases [] = inr refl
query_row-cases (r ∷ rows) = inl (r, refl)

IsFree-row :
    (db : Database) (zone : ℕ) (room : Uuid) (at t : Time) (row : ScheduleRow)
    → query_row (schedules_of room db) ≡ done row
    → (free : IsFree db zone room at t) → free.row ≡ row
IsFree-row db zone room at t row found free = done-injective (sym free.found ∙ found)

module _ (db : Database) (zone : ℕ) (well_formed : WellFormed db) (room : Uuid) (at t : Time) where
  from_row_iff :
      (row : ScheduleRow) {slots : List Slot}
      → query_row (schedules_of room db) ≡ done row
      → (from_schedule room at (ok (schedule_of_row zone row)) (quiet db zone)).0 ≡ ok slots
      → Offers t slots ↔ IsFree db zone room at t
  from_row_iff row {slots} found e =
      elim (Result-cases (generate_slots_for_date (schedule_of_row zone row) at)) [
        | inl (generated, worked) ↦
            let less = less_booked_iff db zone well_formed room at t generated (rw worked at e) in
            let agree = generated_iff db zone well_formed room at t row found worked in
            (
              (λ o.
                  let (offered, unbooked) = less.0 o in
                  let (in_utc, within, same_day) = agree.0 offered in
                  record {
                    row = row;
                    found = found;
                    in_utc = in_utc;
                    on_schedule = within;
                    on_date = same_day;
                    free =
                        sym (
                          booked_starts-taken db zone well_formed room at t in_utc
                            (within-whole _ t within) same_day)
                        ∙ unbooked;
                  }),
              (λ f.
                  let within =
                    subst (λ r. is_start_at_within_schedule (schedule_of_row zone r) t ≡ true)
                      (IsFree-row db zone room at t row found f) f.on_schedule in
                  less.1 (
                    agree.1 (f.in_utc, within, f.on_date),
                    booked_starts-taken db zone well_formed room at t f.in_utc
                          (within-whole _ t within) f.on_date
                        ∙ f.free,
                  )),
            )
        | inr (failure, broken) ↦ absurd (ok-ne-err (sym (rw broken at e)))
      ]

  from_query_iff :
      {slots : List Slot}
      → (from_schedule room at
          (ScheduleRepository.scanned zone (query_row (schedules_of room db)))
          (quiet db zone)).0
        ≡ ok slots
      → Offers t slots ↔ IsFree db zone room at t
  unfolding errors_is
  from_query_iff {slots} e = elim (query_row-cases (schedules_of room db)) [
    | inl (row, found) ↦ from_row_iff row found (rw found at e)
    | inr missing ↦
        let empty : ok [] ≡ ok slots = rw missing at e in
        rw (sym (ok-injective empty))
          ((λ h. absurd h), (λ f. absurd (done-ne-failed (sym f.found ∙ missing))))
  ]

  if_exists_iff :
      (b : Bool) {slots : List Slot}
      → (if_exists room at b (quiet db zone)).0 ≡ ok slots
      → Offers t slots ↔ IsFree db zone room at t
  if_exists_iff true e = from_query_iff (rw get_by_room_id-quiet at e)
  if_exists_iff false e = absurd (ok-ne-err (sym e))

pub list_available-quiet :
    (room : Uuid) (at : Time) (db : Database) (zone : ℕ)
    → list_available_by_room_and_date room at (quiet db zone)
      ≡ if_exists room at (has_room room db) (quiet db zone)
unfolding list_available_by_room_and_date RoomRepository.exists on_result run_sql room_exists
list_available-quiet room at db zone = refl

-- With no other client and a connection that does not fail, over a well-formed database, when the
-- slot list of a room and a date is returned, it offers a start exactly if the room has a schedule
-- that admits the start, the start is in UTC and on that date, and no active booking of the room
-- holds it.
pub list_available_iff :
    (db : Database) (zone : ℕ) (room : Uuid) (at t : Time) {slots : List Slot}
    → WellFormed db
    → (list_available_by_room_and_date room at (quiet db zone)).0 ≡ ok slots
    → Offers t slots ↔ IsFree db zone room at t
list_available_iff db zone room at t {slots} well_formed e =
    if_exists_iff db zone well_formed room at t (has_room room db) (rw list_available-quiet at e)
