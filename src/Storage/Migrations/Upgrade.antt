-- ===== src/Storage/Migrations/Upgrade.antt =====
-- What a run of the migrations is for: the pending files, read, in their order and without the
-- blank ones, are carried out on the schema one after another, and their names are recorded.
use room_booking.Base.{
  List, [], ◌∷◌, keep, Option, none, some, GoString, codes, text_eq, trim_space, not, ◌≡◌,
}
use room_booking.Domain.Errors.{ok}
use room_booking.Storage.Migrations.{Files, list_migration_files, in_set}
use room_booking.Storage.Migrations.Transaction.{Migrated}

-- A migration: its name and its text without the space around it.
abbrev pub Migration : Type 0
Migration = GoString × GoString

abbrev pub add_migration :
    GoString → Option GoString → Option (List Migration) → Option (List Migration)
add_migration name none ms = none
add_migration name (some body) none = none
add_migration name (some body) (some ms) = some ((name, trim_space body) ∷ ms)

unfoldable pub read_all : Files → List GoString → Option (List Migration)
read_all files [] = some []
read_all files (name ∷ names) = add_migration name (files.read_file name) (read_all files names)

abbrev pub pending : List GoString → List GoString → List GoString
pending applied names = keep (λ name. not (in_set applied name)) names

abbrev pub with_text : List Migration → List Migration
with_text ms = keep (λ (m : Migration). not (text_eq m.1 (codes ""))) ms

unfoldable pub recorded : List Migration → List GoString → List GoString
recorded [] names = names
recorded (m ∷ ms) names = recorded ms (m.0 ∷ names)

-- The names in schema_migrations; no table holds none.
abbrev pub applied_names : Option (List GoString) → List GoString
applied_names none = []
applied_names (some names) = names

module _ {S : Type 0} (exec : S → GoString → Option S) where
  unfoldable pub carried_out : List Migration → S → Option S
  carried_out [] s = some s
  carried_out (m ∷ ms) s = elim (exec s m.1) [ none ↦ none | some s' ↦ carried_out ms s' ]

  -- The database after all pending migrations.
  pub record Upgraded (files : Files) (db db' : Migrated S) : Type 0 where
    pub names : List GoString
    pub listed : list_migration_files files ≡ ok names
    pub migrations : List Migration
    pub read : read_all files (pending (applied_names db.versions) names) ≡ some migrations
    pub schema_upgraded : carried_out (with_text migrations) db.schema ≡ some db'.schema
    pub versions_recorded :
        db'.versions ≡ some (recorded (with_text migrations) (applied_names db.versions))
