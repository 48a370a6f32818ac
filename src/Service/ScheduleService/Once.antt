-- ===== src/Service/ScheduleService/Once.antt =====
-- `Create` of internal/service/schedule_service.go for a room that has a schedule.
use room_booking.Base.{
  ℕ, ℤ, List, any, Option, none, some, GoString, Bool, true, false, ◌==◌, ◌≡◌, refl, ap, ◌∙◌, arith,
  inl, inr, Bool-cases,
}
use room_booking.Domain.Entities.{Uuid, Schedule}
use room_booking.Domain.Errors.{Error, err, Result-cases}
use room_booking.Slots.Days.{normalize_and_validate_days}
use room_booking.Storage.Tables.{ScheduleRow, Database, DbError, failed, schedules_room_unique}
use room_booking.Storage.Statements.{schedule_tests, insert_schedule, has_room, room_exists}
use room_booking.Storage.WellFormed.Inserts.{Passes, first_violation-cases}
use room_booking.Storage.World.{run_sql, on_result, ◌>>◌, pure}
use room_booking.Storage.World.Quiet.{quiet}
use room_booking.Storage.World.Done.{then-failed}
use room_booking.Storage.Failures.{mentions}
use room_booking.Storage.ScheduleRepository as ScheduleRepository
use room_booking.Storage.ScheduleRepository.{insert_schedule_text, row_of_schedule, created}
use room_booking.Storage.RoomRepository as RoomRepository
use room_booking.Service.ScheduleService.{
  validate_schedule_window, new_schedule, require_room, create,
}

-- Whether a room has a schedule.
abbrev pub has_schedule : Uuid → Database → Bool
has_schedule room db = any (λ (r : ScheduleRow). r.room_id == room) db.schedules

Passes-no_schedule :
    (row : ScheduleRow) (db : Database)
    → Passes (schedule_tests row db)
    → has_schedule row.room_id db ≡ false
Passes-no_schedule row db passes = let free = passes.1.1.1.1.1.1.1.0 in ground arith

insert_again :
    (row : ScheduleRow) (db : Database)
    → has_schedule row.room_id db ≡ true
    → (e : DbError) × (insert_schedule row db ≡ (failed e, db))
unfolding insert_schedule
insert_again row db has = elim (first_violation-cases (schedule_tests row db)) [
  | inl (passed, passes) ↦
      let without = Passes-no_schedule row db passes in absurd (cc (has, without))
  | inr (e, found) ↦ (e, rw found refl)
]

insert_text_again :
    (db_now : ℕ) (s : Schedule) (a b : Option ℕ) (db : Database)
    → has_schedule s.room_id db ≡ true
    → (e : DbError) × (insert_schedule_text db_now s a b db ≡ (failed e, db))
unfolding insert_schedule_text
insert_text_again db_now s (some a) (some b) db has =
    insert_again (row_of_schedule db_now s a b) db has
insert_text_again db_now s (some a) none db has = (_, refl)
insert_text_again db_now s none b db has = (_, refl)

created-failed : (x : DbError) → (e : Error) × (created (failed x) ≡ err e)
created-failed x = elim (Bool-cases (mentions x schedules_room_unique)) [
  | inl named ↦ rw named (_, refl)
  | inr other ↦ rw other (_, refl)
]

module _ (order : List ℤ → List ℤ) (pg_time : GoString → Option ℕ) (db_now : ℕ) (new_id room : Uuid)
    (days : List ℤ) (start_time end_time : GoString) (db : Database) (zone : ℕ) where
  abbrev made : List ℤ → Schedule
  made ds = new_schedule new_id room ds start_time end_time

  insert-quiet :
      (ds : List ℤ)
      → ScheduleRepository.create pg_time db_now (made ds) (quiet db zone) ≡ (
        created
            (insert_schedule_text db_now (made ds) (pg_time start_time) (pg_time end_time) db).0,
        quiet
            (insert_schedule_text db_now (made ds) (pg_time start_time) (pg_time end_time) db).1
            zone,
      )
  unfolding ScheduleRepository.create run_sql on_result
  insert-quiet ds = refl

  stored_again :
      (ds : List ℤ)
      → has_schedule room db ≡ true
      → (e : Error) × ((ScheduleRepository.create pg_time db_now (made ds) >> pure (made ds))
            (quiet db zone)
          ≡ (err e, quiet db zone))
  stored_again ds has =
      let (x, refused) =
        insert_text_again db_now (made ds) (pg_time start_time) (pg_time end_time) db has in
      let (e, reported) = created-failed x in
      (
        e,
        then-failed (ScheduleRepository.create pg_time db_now (made ds)) (pure (made ds))
            (quiet db zone) (quiet db zone) e
            (insert-quiet ds
              ∙ (ap (λ p. (created p.0, quiet p.1 zone)) refused
                  ∙ ap (λ r. (r, quiet db zone)) reported)),
      )

  on_exists_again :
      (ds : List ℤ) (b : Bool)
      → has_schedule room db ≡ true
      → (e : Error) × ((require_room b
              >> (ScheduleRepository.create pg_time db_now (made ds) >> pure (made ds)))
            (quiet db zone)
          ≡ (err e, quiet db zone))
  on_exists_again ds true has = stored_again ds has
  on_exists_again ds false has = (_, refl)

  -- With no other client and a connection that does not fail, Create of the schedule service for a
  -- room that has a schedule returns an error, and nothing changes.
  pub create_schedule_again :
      has_schedule room db ≡ true
      → (e : Error) × (create order pg_time db_now new_id room days start_time end_time
            (quiet db zone)
          ≡ (err e, quiet db zone))
  unfolding create RoomRepository.exists room_exists run_sql on_result
  create_schedule_again has = elim (Result-cases (normalize_and_validate_days order days)) [
    | inr (e, bad) ↦ (e, rw bad refl)
    | inl (ds, normalized) ↦ elim (Result-cases (validate_schedule_window start_time end_time)) [
      | inr (e, bad) ↦ (e, rw (normalized, bad) refl)
      | inl (u, valid) ↦ rw (normalized, valid) (on_exists_again ds (has_room room db) has)
    ]
  ]
