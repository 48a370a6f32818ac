-- ===== src/Storage/World.antt =====
-- The world in which the repositories work: the database, the other clients of it and the
-- connection. Before each statement of a request other clients may have written, and the
-- connection may fail: before the statement runs, or after it, when the answer is lost.
pub mod Quiet
pub mod Done
use room_booking.Base.{ℕ, List, [], ◌∷◌, GoString, ◌*◌, ◌/◌}
use room_booking.Domain.Time.{Time}
use room_booking.Domain.Entities.{Uuid}
use room_booking.Domain.Errors.{Error, Result, ok, err}
use room_booking.Storage.Tables.{
  UserRow, RoomRow, ScheduleRow, BookingRow, Database, DbError, failure, SqlResult, done, failed,
  Statement,
}
use room_booking.Storage.Statements.{insert_user, insert_room, insert_schedule}
use room_booking.Storage.Bookings.{insert_booking, cancel_booking}

-- A statement of another client that writes.
pub data Write : Type 0 where
  user : UserRow → Write
  room : RoomRow → Write
  schedule : ScheduleRow → Write
  booking : BookingRow → Write
  cancel : Uuid → ℕ → Write

unfoldable pub apply_write : Write → Database → Database
apply_write (user r) db = (insert_user r db).1
apply_write (room r) db = (insert_room r db).1
apply_write (schedule r) db = (insert_schedule r db).1
apply_write (booking r) db = (insert_booking r db).1
apply_write (cancel id now) db = (cancel_booking id now db).1

unfoldable pub apply_writes : List Write → Database → Database
unfolding apply_write
apply_writes [] db = db
apply_writes (x ∷ xs) db = apply_writes xs (apply_write x db)

-- How the connection serves a statement.
pub data Answer : Type 0 where
  answered : Answer
  refused lost : GoString → Answer

pub record Turn : Type 0 where
  pub writes : List Write
  pub answer : Answer

-- `turns` holds what comes before each statement; when it is used up, the world is quiet. The
-- driver shows a timestamptz in the location `local_zone`.
pub record World : Type 0 where
  pub db : Database
  pub turns : List Turn
  pub local_zone : ℕ

abbrev pub Action : Type 0 → Type 0
Action A = World → Result A × World

-- A call of the driver, with its own kind of result.
abbrev pub Query : Type 0 → Type 0
Query A = World → SqlResult A × World

module _ {A : Type 0} where
  abbrev pub run_answered : Statement A → World → List Turn → Database → SqlResult A × World
  run_answered s w turns db = let (r, db') = s db in (r, record w { db = db'; turns = turns })

  abbrev pub run_answer : Answer → Statement A → World → List Turn → Database → SqlResult A × World
  run_answer answered s w turns db = run_answered s w turns db
  run_answer (refused text) s w turns db =
      (failed (failure text), record w { db = db; turns = turns })
  run_answer (lost text) s w turns db =
      (failed (failure text), record w { db = (s db).1; turns = turns })

  abbrev pub run_turns : List Turn → Statement A → World → SqlResult A × World
  run_turns [] s w = run_answered s w [] w.db
  run_turns (t ∷ turns) s w = run_answer t.answer s w turns (apply_writes t.writes w.db)

  -- Run a statement.
  unfoldable pub run_sql : Statement A → Query A
  run_sql s w = run_turns w.turns s w

  abbrev pub pure : A → Action A
  pure a w = (ok a, w)

  abbrev pub raise : Error → Action A
  raise e w = (err e, w)

infixl 5 ◌>>=◌ ◌>>◌
abbrev pub ◌>>=◌ : {A B : Type 0} → Action A → (A → Action B) → Action B
◌>>=◌ m f w = let (r, w') = m w in elim r [ ok a ↦ f a w' | err e ↦ (err e, w') ]

abbrev pub ◌>>◌ : {B : Type 0} → Action (Unit {0}) → Action B → Action B
m >> k = m >>= λ _. k

-- A result without effects.
abbrev pub lift : {A : Type 0} → Result A → Action A
lift r w = (r, w)

-- A query and what the repository makes of its result.
unfoldable pub on_result : {A B : Type 0} → Query A → (SqlResult A → Result B) → Action B
on_result q f w = let (r, w') = q w in (f r, w')

-- How the driver sends a time as a timestamptz, in microseconds, and how it shows one.
abbrev pub to_timestamptz : Time → ℕ
to_timestamptz t = t.nanos / 1000

abbrev pub from_timestamptz : ℕ → ℕ → Time
from_timestamptz zone micros = record { nanos = micros * 1000; zone = zone }

-- `x, err := m` with the error looked at by what follows.
abbrev pub look : {A B : Type 0} → Action A → (Result A → Action B) → Action B
look m f w = let (r, w') = m w in f r w'

-- What the driver shows depends on its location.
abbrev pub with_zone : {A : Type 0} → (ℕ → Action A) → Action A
with_zone f w = f w.local_zone w
