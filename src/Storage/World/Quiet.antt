-- ===== src/Storage/World/Quiet.antt =====
-- A world with no other client and a connection that does not fail: a statement runs at once.
use room_booking.Base.{ℕ, [], ◌≡◌, refl}
use room_booking.Storage.Tables.{Database, Statement}
use room_booking.Storage.World.{World, run_sql}

abbrev pub quiet : Database → ℕ → World
quiet db zone = record { db = db; turns = []; local_zone = zone }

pub run_sql-quiet :
    {A : Type 0} (s : Statement A) (db : Database) (zone : ℕ)
    → run_sql s (quiet db zone) ≡ ((s db).0, quiet (s db).1 zone)
unfolding run_sql
run_sql-quiet s db zone = refl
