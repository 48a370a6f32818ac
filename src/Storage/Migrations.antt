-- ===== src/Storage/Migrations.antt =====
-- internal/storage/postgres/migrate.go. The schema and what PostgreSQL makes of a migration's text
-- are parameters: `exec` gives the schema after the text, or none if the text is refused.
pub mod Transaction
pub mod Inversion
pub mod Upgrade
pub mod Single
pub mod Loop
pub mod Atomic
pub mod Complete
pub mod Again
use room_booking.Base.{
  ℕ, ◌<◌, ltb, ◌==◌, List, [], ◌∷◌, keep, map, any, Option, none, some, GoString, codes, text_eq,
  trim_space, Bool, true, false, not, ◌&&◌, ◌||◌, if◌then◌else◌, String,
}
use room_booking.Domain.Errors.{Error, Result, ok, err, wrap, plain}
use room_booking.Storage.Tables.{SqlResult, done, failed, failure}
use room_booking.Storage.World.{Answer}
use room_booking.Storage.Migrations.Transaction.{
  Migrated, TxState, TxAction, tx_run, tx_on, tx_pure, tx_lift, ◌>>=◌, ◌>>◌, Run, end_of_run,
}

-- What `fs.ReadDir` tells of an entry.
pub record Entry : Type 0 where
  pub name : GoString
  pub is_dir : Bool

-- An `fs.FS`: `fs.ReadDir` of its root and `fs.ReadFile`, none where they fail.
pub record Files : Type 0 where
  pub read_dir : Option (List Entry)
  pub read_file : GoString → Option GoString

-- `filepath.Ext`, of a name without a slash: what starts at the last dot.
unfoldable pub ext : GoString → GoString
ext [] = []
ext (a ∷ s) =
    let rest = ext s in if not (text_eq rest []) then rest else if a == 46 then a ∷ s else []

-- `a < b` on strings, byte by byte.
unfoldable pub text_ltb : GoString → GoString → Bool
text_ltb s [] = false
text_ltb [] (_ ∷ _) = true
text_ltb (a ∷ s) (b ∷ t) = ltb a b || (a == b && text_ltb s t)

-- `slices.Sort` of strings.
unfoldable pub insert_text : GoString → List GoString → List GoString
insert_text s [] = s ∷ []
insert_text s (t ∷ ts) =
    let rest = insert_text s ts in if text_ltb t s then t ∷ rest else s ∷ t ∷ ts

unfoldable pub sort_texts : List GoString → List GoString
sort_texts [] = []
sort_texts (s ∷ ss) = insert_text s (sort_texts ss)

abbrev pub is_migration : Entry → Bool
is_migration e = not (e.is_dir || not (text_eq (ext e.name) (codes ".sql")))

abbrev pub listed_files : Option (List Entry) → Result (List GoString)
listed_files none = err (wrap "read migrations dir" (plain "cannot read directory"))
listed_files (some entries) =
    ok (sort_texts (map (λ (e : Entry). e.name) (keep is_migration entries)))

unfoldable pub list_migration_files : Files → Result (List GoString)
list_migration_files files = listed_files files.read_dir

-- Whether a name is in the set of the applied ones.
abbrev pub in_set : List GoString → GoString → Bool
in_set applied name = any (text_eq name) applied

-- `fs.ReadFile` of a migration, with its error wrapped.
abbrev pub body_of : Option GoString → Result GoString
body_of none = err (wrap "read migration" (plain "file does not exist"))
body_of (some body) = ok body

module _ {S : Type 0} (exec : S → GoString → Option S) where
  -- create table if not exists schema_migrations ...
  abbrev pub create_table : Run S (Unit {0})
  create_table db = elim db.versions [
    | none ↦ (done tt, record db { versions = some [] })
    | some names ↦ (done tt, db)
  ]

  unfoldable pub ensure_schema_migrations_table : TxAction S (Unit {0})
  ensure_schema_migrations_table = tx_on (tx_run create_table) "ensure schema_migrations table"

  -- select version from schema_migrations
  abbrev pub select_versions : Run S (List GoString)
  select_versions db = elim db.versions [
    | none ↦ (failed (failure (codes "ERROR: relation does not exist (SQLSTATE 42P01)")), db)
    | some names ↦ (done names, db)
  ]

  unfoldable pub load_applied_migrations : TxAction S (List GoString)
  load_applied_migrations = tx_on (tx_run select_versions) "list applied migrations"

  -- The text of a migration, run by the database.
  abbrev pub exec_text : GoString → Run S (Unit {0})
  exec_text statement db = elim (exec db.schema statement) [
    | none ↦ (failed (failure (codes "ERROR: migration (SQLSTATE 42601)")), db)
    | some schema ↦ (done tt, record db { schema = schema })
  ]

  -- insert into schema_migrations (version) values ($1), where version is the primary key
  abbrev pub insert_version : GoString → Run S (Unit {0})
  insert_version name db = elim db.versions [
    | none ↦ (failed (failure (codes "ERROR: relation does not exist (SQLSTATE 42P01)")), db)
    | some names ↦
        if in_set names name
        then (failed (failure (codes "ERROR: duplicate key value (SQLSTATE 23505)")), db)
        else (done tt, record db { versions = some (name ∷ names) })
  ]

  -- A pending migration whose text is not blank.
  abbrev pub apply_one : GoString → GoString → TxAction S (Unit {0})
  apply_one name statement = do
    tx_on (tx_run (exec_text statement)) "apply migration"
    tx_on (tx_run (insert_version name)) "record migration"

  unfoldable pub apply_pending_migrations :
      Files → List GoString → List GoString → TxAction S (Unit {0})
  apply_pending_migrations files [] applied = tx_pure tt
  apply_pending_migrations files (name ∷ names) applied =
      let rest = apply_pending_migrations files names applied in
      if in_set applied name then rest else do
        body ← tx_lift (body_of (files.read_file name))
        let statement = trim_space body
        if text_eq statement (codes "") then rest else (do apply_one name statement; rest)

  -- The statements between `Begin` and `Commit`.
  unfoldable pub in_transaction : Files → List GoString → TxAction S (Unit {0})
  in_transaction files names = do
    ensure_schema_migrations_table
    applied ← load_applied_migrations
    apply_pending_migrations files names applied

  -- `RunMigrations`, on connections that serve `Begin`, the statements and `Commit` as `begin`,
  -- `answers` and `commit` say. A transaction that is not committed is rolled back.
  unfoldable pub run_migrations :
      Files → Answer → List Answer → Answer → Migrated S → Result (Unit {0}) × Migrated S
  run_migrations files begin answers commit db = elim (list_migration_files files) [
    | err e ↦ (err e, db)
    | ok names ↦
        end_of_run begin commit db
          (in_transaction files names (record { draft = db; answers = answers }))
  ]
