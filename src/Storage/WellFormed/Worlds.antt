-- ===== src/Storage/WellFormed/Worlds.antt =====
-- The invariant across the statements of all clients, and of a request that is made of statements.
use room_booking.Base.{ℕ, List, [], ◌∷◌, Bool, true, false, if◌then◌else◌}
use room_booking.Domain.Errors.{Error, Result, ok, err}
use room_booking.Storage.Tables.{Database, SqlResult, Statement}
use room_booking.Storage.World.{
  Write, user, room, schedule, booking, cancel, apply_write, apply_writes, Answer, answered,
  refused, lost, Turn, World, Action, Query, run_sql, run_turns, run_answer, pure, raise, lift,
  look, with_zone, on_result, ◌>>=◌,
}
use room_booking.Storage.WellFormed.{WellFormed}
use room_booking.Storage.WellFormed.Inserts.{
  insert_user-WellFormed, insert_room-WellFormed, insert_schedule-WellFormed,
  insert_booking-WellFormed,
}
use room_booking.Storage.WellFormed.Cancelling.{cancel_booking-WellFormed}

pub apply_write-WellFormed :
    (x : Write) (db : Database) → WellFormed db → WellFormed (apply_write x db)
unfolding apply_write
apply_write-WellFormed (user r) db h = insert_user-WellFormed r db h
apply_write-WellFormed (room r) db h = insert_room-WellFormed r db h
apply_write-WellFormed (schedule r) db h = insert_schedule-WellFormed r db h
apply_write-WellFormed (booking r) db h = insert_booking-WellFormed r db h
apply_write-WellFormed (cancel id now) db h = cancel_booking-WellFormed id now db h

-- The database stays well formed under any sequence of the statements that write, whoever sends
-- them.
pub apply_writes-WellFormed :
    (xs : List Write) (db : Database) → WellFormed db → WellFormed (apply_writes xs db)
unfolding apply_writes
apply_writes-WellFormed [] db h = h
apply_writes-WellFormed (x ∷ xs) db h =
    apply_writes-WellFormed xs (apply_write x db) (apply_write-WellFormed x db h)

-- A statement or an action that keeps the database well formed, whatever other clients do and
-- however the connection fails.
abbrev pub StatementKeeps : {A : Type 0} → Statement A → Type 0
StatementKeeps s = (db : Database) → WellFormed db → WellFormed (s db).1

pub record QueryKeeps {A : Type 0} (q : Query A) : Type 0 where
  pub keeps : (w : World) → WellFormed w.db → WellFormed (q w).1.db

pub record Keeps {A : Type 0} (m : Action A) : Type 0 where
  pub keeps : (w : World) → WellFormed w.db → WellFormed (m w).1.db

run_answer-WellFormed :
    {A : Type 0} (answer : Answer) (s : Statement A) (w : World) (turns : List Turn) (db : Database)
    → StatementKeeps s
    → WellFormed db
    → WellFormed (run_answer answer s w turns db).1.db
run_answer-WellFormed answered s w turns db keeps h = keeps db h
run_answer-WellFormed (refused text) s w turns db keeps h = h
run_answer-WellFormed (lost text) s w turns db keeps h = keeps db h

run_turns-WellFormed :
    {A : Type 0} (turns : List Turn) (s : Statement A) (w : World)
    → StatementKeeps s
    → WellFormed w.db
    → WellFormed (run_turns turns s w).1.db
run_turns-WellFormed [] s w keeps h = keeps w.db h
run_turns-WellFormed (t ∷ turns) s w keeps h =
    run_answer-WellFormed t.answer s w turns (apply_writes t.writes w.db) keeps
      (apply_writes-WellFormed t.writes w.db h)

pub run_sql-Keeps : {A : Type 0} (s : Statement A) → StatementKeeps s → QueryKeeps (run_sql s)
unfolding run_sql
run_sql-Keeps s k = record { keeps = λ w h. run_turns-WellFormed w.turns s w k h }

pub on_result-Keeps :
    {A B : Type 0} {q : Query A} (f : SqlResult A → Result B) → QueryKeeps q → Keeps (on_result q f)
unfolding on_result
on_result-Keeps f k = record { keeps = λ w h. k.keeps w h }

pub with_zone-Keeps :
    {A : Type 0} {f : ℕ → Action A} → ((zone : ℕ) → Keeps (f zone)) → Keeps (with_zone f)
with_zone-Keeps k = record { keeps = λ w h. (k w.local_zone).keeps w h }

pub pure-Keeps : {A : Type 0} {a : A} → Keeps (pure a)
pure-Keeps = record { keeps = λ w h. h }

pub raise-Keeps : {A : Type 0} {e : Error} → Keeps {A = A} (raise e)
raise-Keeps = record { keeps = λ w h. h }

pub lift-Keeps : {A : Type 0} {r : Result A} → Keeps (lift r)
lift-Keeps = record { keeps = λ w h. h }

bind_cases :
    {A B : Type 0} (r : Result A) (w : World) (f : A → Action B)
    → ((a : A) → Keeps (f a))
    → WellFormed w.db
    → WellFormed (◌>>=◌ (λ _. (r, w)) f w).1.db
bind_cases (ok a) w f k h = (k a).keeps w h
bind_cases (err e) w f k h = h

pub bind-Keeps :
    {A B : Type 0} {m : Action A} {f : A → Action B}
    → Keeps m
    → ((a : A) → Keeps (f a))
    → Keeps (m >>= f)
bind-Keeps {m} {f} first later = record {
  keeps = λ w h. bind_cases (m w).0 (m w).1 f later (first.keeps w h);
}

pub look-Keeps :
    {A B : Type 0} {m : Action A} {f : Result A → Action B}
    → Keeps m
    → ((r : Result A) → Keeps (f r))
    → Keeps (look m f)
look-Keeps {m} first later = record {
  keeps = λ w h. (later (m w).0).keeps (m w).1 (first.keeps w h);
}

pub if-Keeps :
    {A : Type 0} (b : Bool) {m n : Action A} → Keeps m → Keeps n → Keeps (if b then m else n)
if-Keeps true k l = k
if-Keeps false k l = l

pub ruleset keeps_rules = (
  run_sql-Keeps, on_result-Keeps, with_zone-Keeps, pure-Keeps, raise-Keeps, lift-Keeps, bind-Keeps,
  look-Keeps, if-Keeps,
)
