-- ===== src/Service/ScheduleService/Laws.antt =====
-- `Create` of internal/service/schedule_service.go and its validation of the window.
use room_booking.Base.{
  ℕ, ◌+◌, ◌*◌, ◌%◌, ◌<◌, ℤ, List, Option, GoString, Bool, ◌≡◌, ◌↔◌, refl, sym, arith,
}
use room_booking.Domain.Entities.{Uuid, Schedule}
use room_booking.Domain.Errors.{Result, ok, err, ok-ne-err}
use room_booking.Slots.Parse.{parse_hhmm}
use room_booking.Slots.Days.{normalize_and_validate_days}
use room_booking.Storage.World.{World, Action, lift, pure, ◌>>=◌, ◌>>◌}
use room_booking.Storage.World.Done.{bind-ok, then-ok}
use room_booking.Storage.RoomRepository as RoomRepository
use room_booking.Storage.ScheduleRepository as ScheduleRepository
use room_booking.Service.ScheduleService.{
  checked_window, validate_schedule_window, require_room, new_schedule, create,
}

-- Two texts that spell a window: both are readable, on half hours, and the end is later.
pub record IsWindow (start_time end_time : GoString) : Type 0 where
  pub start_hour : ℕ
  pub start_minute : ℕ
  pub end_hour : ℕ
  pub end_minute : ℕ
  pub start_parsed : parse_hhmm start_time ≡ ok (start_hour, start_minute)
  pub end_parsed : parse_hhmm end_time ≡ ok (end_hour, end_minute)
  pub start_step : start_minute % 30 ≡ 0
  pub end_step : end_minute % 30 ≡ 0
  pub ordered : start_hour * 60 + start_minute < end_hour * 60 + end_minute

checked-ok :
    (sh sm eh em : ℕ)
    → checked_window (ok (sh, sm)) (ok (eh, em)) ≡ ok tt
    → (sm % 30 ≡ 0) × (em % 30 ≡ 0) × (sh * 60 + sm < eh * 60 + em)
checked-ok sh sm eh em e = ground arith

checked-accepts :
    (sh sm eh em : ℕ)
    → sm % 30 ≡ 0
    → em % 30 ≡ 0
    → sh * 60 + sm < eh * 60 + em
    → checked_window (ok (sh, sm)) (ok (eh, em)) ≡ ok tt
checked-accepts sh sm eh em p q r = ground arith

checked-IsWindow :
    (start_time end_time : GoString) (r s : Result (ℕ × ℕ))
    → parse_hhmm start_time ≡ r
    → parse_hhmm end_time ≡ s
    → checked_window r s ≡ ok tt
    → IsWindow start_time end_time
checked-IsWindow start_time end_time (err x) s p q e = absurd (ok-ne-err (sym e))
checked-IsWindow start_time end_time (ok a) (err x) p q e = absurd (ok-ne-err (sym e))
checked-IsWindow start_time end_time (ok (sh, sm)) (ok (eh, em)) p q e =
    let (start_step, end_step, ordered) = checked-ok sh sm eh em e in
    record {
      start_hour = sh;
      start_minute = sm;
      end_hour = eh;
      end_minute = em;
      start_parsed = p;
      end_parsed = q;
      start_step = start_step;
      end_step = end_step;
      ordered = ordered;
    }

-- validateScheduleWindow accepts exactly the windows: both times are readable, on half hours, and
-- the end is later than the start.
pub validate_schedule_window-IsWindow :
    (start_time end_time : GoString)
    → (validate_schedule_window start_time end_time ≡ ok tt) ↔ IsWindow start_time end_time
unfolding validate_schedule_window
validate_schedule_window-IsWindow start_time end_time = (
  (λ e. checked-IsWindow start_time end_time _ _ refl refl e),
  (λ h.
      rw (h.start_parsed, h.end_parsed)
        (checked-accepts h.start_hour h.start_minute h.end_hour h.end_minute h.start_step h.end_step
          h.ordered)),
)

module _ (order : List ℤ → List ℤ) (pg_time : GoString → Option ℕ) (db_now : ℕ) (new_id room : Uuid)
    (days : List ℤ) (start_time end_time : GoString) where
  -- The steps of `Create`, from the last one back.
  abbrev stored : List ℤ → Action Schedule
  stored ds = do
    ScheduleRepository.create pg_time db_now (new_schedule new_id room ds start_time end_time)
    pure (new_schedule new_id room ds start_time end_time)

  abbrev on_exists : List ℤ → Bool → Action Schedule
  on_exists ds exists = do require_room exists; stored ds

  abbrev on_days : List ℤ → Action Schedule
  on_days ds = do
    lift (validate_schedule_window start_time end_time)
    exists ← RoomRepository.exists room
    on_exists ds exists

  -- Whatever other clients write and however the connection fails: when Create of the schedule
  -- service succeeds, the days passed their validation, the two times spell a window, and the
  -- schedule is the one of the new id, the room, the normalized days and the times given.
  pub create_schedule_sound :
      (w : World) {s : Schedule}
      → (create order pg_time db_now new_id room days start_time end_time w).0 ≡ ok s
      → (ds : List ℤ) × (normalize_and_validate_days order days ≡ ok ds)
        × IsWindow start_time end_time
        × (s ≡ new_schedule new_id room ds start_time end_time)
  unfolding create
  create_schedule_sound w {s} e =
      let (ds, normalized, e1) =
        bind-ok (lift (normalize_and_validate_days order days)) on_days w {b = s} e in
      let (u, valid, e2) =
        bind-ok (lift (validate_schedule_window start_time end_time))
          (λ u. RoomRepository.exists room >>= on_exists ds) w {b = s} e1 in
      let (exists, known, e3) = bind-ok (RoomRepository.exists room) (on_exists ds) w {b = s} e2 in
      let (v, passed, e4) =
        bind-ok (require_room exists) (λ v. stored ds) (RoomRepository.exists room w).1 {b = s}
          e3 in
      let (worked, same, left) =
        then-ok
          (ScheduleRepository.create pg_time db_now
            (new_schedule new_id room ds start_time end_time))
          (new_schedule new_id room ds start_time end_time)
          (require_room exists (RoomRepository.exists room w).1).1 {b = s} e4 in
      (ds, normalized, (validate_schedule_window-IsWindow start_time end_time).0 valid, same)
