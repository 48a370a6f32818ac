-- ===== src/Tests/Migrations.antt =====
-- Concrete runs of the migrations: a schema is the list of the texts that ran.
use room_booking.Base.{
  List, [], ◌∷◌, Option, none, some, GoString, codes, text_eq, trim_space, if◌then◌else◌, true,
  false, ◌≡◌, refl,
}
use room_booking.Domain.Errors.{ok}
use room_booking.Storage.World.{answered}
use room_booking.Storage.Migrations.{
  Entry, Files, run_migrations, list_migration_files, in_transaction,
  ensure_schema_migrations_table, load_applied_migrations, apply_pending_migrations, sort_texts,
  ext, insert_text, text_ltb,
}
use room_booking.Storage.Migrations.Transaction.{Migrated}
use room_booking.Storage.Migrations.Atomic.{AllOrNothing, run_migrations_atomic}
use room_booking.Storage.Migrations.Again.{run_migrations_again}

-- A text is run unless it is `bad`.
abbrev toy_exec : List GoString → GoString → Option (List GoString)
toy_exec s statement = if text_eq statement (codes "bad") then none else some (statement ∷ s)

abbrev entry : GoString → Entry
entry name = record { name = name; is_dir = false }

abbrev toy_read : GoString → Option GoString
toy_read name =
    if text_eq name (codes "1.sql")
    then some (codes " create ")
    else if text_eq name (codes "2.sql")
    then some (codes "  ")
    else if text_eq name (codes "3.sql")
    then some (codes "alter")
    else none

abbrev toy_files : Files
toy_files = record {
  read_dir = some (
      entry (codes "3.sql")
      ∷ record { name = codes "old.sql"; is_dir = true }
      ∷ entry (codes "fs.go")
      ∷ entry (codes "2.sql")
      ∷ entry (codes "1.sql")
      ∷ []);
  read_file = toy_read;
}

abbrev bad_files : Files
bad_files = record toy_files {
  read_file = λ (name : GoString).
      if text_eq name (codes "3.sql") then some (codes "bad") else toy_read name;
}

abbrev empty : Migrated (List GoString)
empty = record { schema = []; versions = none }

abbrev migrated : Migrated (List GoString)
migrated = record {
  schema = codes "alter" ∷ codes "create" ∷ [];
  versions = some (codes "3.sql" ∷ codes "1.sql" ∷ []);
}

listed : list_migration_files toy_files ≡ ok (codes "1.sql" ∷ codes "2.sql" ∷ codes "3.sql" ∷ [])
unfolding list_migration_files sort_texts text_eq ext insert_text text_ltb
listed = refl

first_run : run_migrations toy_exec toy_files answered [] answered empty ≡ (ok tt, migrated)
unfolding run_migrations list_migration_files in_transaction ensure_schema_migrations_table
    load_applied_migrations apply_pending_migrations sort_texts text_eq ext insert_text text_ltb
    trim_space
first_run = refl

run_migrations_atomic_example :
    AllOrNothing toy_exec bad_files empty
      (run_migrations toy_exec bad_files answered [] answered empty)
run_migrations_atomic_example = run_migrations_atomic toy_exec bad_files answered [] answered empty

run_migrations_again_example :
    run_migrations toy_exec toy_files answered [] answered migrated ≡ (ok tt, migrated)
run_migrations_again_example =
    run_migrations_again toy_exec toy_files answered [] answered empty migrated first_run
