-- ===== src/Storage/Migrations/Atomic.antt =====
-- A run of the migrations does all that is pending or nothing.
use room_booking.Base.{
  List, Option, some, some-injective, Option-cases, GoString, ◌≡◌, ◌⊎◌, inl, inr, refl, sym, ap,
  ◌∙◌, arith,
}
use mathlib.Core.Path.{subst}
use room_booking.Domain.Errors.{Error, Result, ok, err, Result-cases}
use room_booking.Storage.Tables.{done}
use room_booking.Storage.World.{Answer, answered, refused, lost}
use room_booking.Storage.Migrations.{
  Files, list_migration_files, apply_pending_migrations, create_table, select_versions,
  ensure_schema_migrations_table, load_applied_migrations, in_transaction, run_migrations,
}
use room_booking.Storage.Migrations.Transaction.{
  Migrated, TxState, TxAction, tx_on, tx_run, ◌>>=◌, end_of_run, ended, committed,
}
use room_booking.Storage.Migrations.Inversion.{chained, executed}
use room_booking.Storage.Migrations.Upgrade.{applied_names, Upgraded}
use room_booking.Storage.Migrations.Loop.{Carried, apply_pending-Does}

module _ {S : Type 0} (exec : S → GoString → Option S) where
  create_table-done :
      (d : Migrated S)
      → ((create_table exec d).1.schema ≡ d.schema)
        × ((create_table exec d).1.versions ≡ some (applied_names d.versions))
  create_table-done d = ground arith

  select_versions-done :
      (d : Migrated S) {names : List GoString}
      → (select_versions exec d).0 ≡ done names
      → (d.versions ≡ some names) × ((select_versions exec d).1 ≡ d)
  select_versions-done d e = elim (Option-cases d.versions) [
    | inl p ↦ ground (arith, p)
    | inr (s, p) ↦ ground (arith, p)
  ]

  Carried-from :
      (files : Files) (names : List GoString) {ns old : List GoString} {d d₀ d' : Migrated S}
      → ns ≡ old
      → d.schema ≡ d₀.schema
      → Carried exec files ns names ns d d'
      → Carried exec files old names old d₀ d'
  Carried-from files names {d₀} {d'} same kept c =
      subst (λ o. Carried exec files o names o d₀ d') same
        (record {
          migrations = c.migrations;
          read = c.read;
          schema_upgraded = rw (sym kept) c.schema_upgraded;
          versions_recorded = c.versions_recorded;
        })

  -- The statements before the commit, when they all succeeded.
  in_transaction-ok :
      (files : Files) (names : List GoString) (t : TxState S)
      → (in_transaction exec files names t).0 ≡ ok tt
      → Carried exec files
          (applied_names t.draft.versions)
          names
          (applied_names t.draft.versions)
          t.draft
          (in_transaction exec files names t).1.draft
  unfolding in_transaction ensure_schema_migrations_table load_applied_migrations
  in_transaction-ok files names t e =
      let load : TxAction S (List GoString) =
        tx_on (tx_run (select_versions exec)) "list applied migrations" in
      let rest : List GoString → TxAction S (Unit {0}) =
        apply_pending_migrations exec files names in
      let c =
        chained (tx_on (tx_run (create_table exec)) "ensure schema_migrations table")
          (λ _. load >>= rest) t e in
      let t' = (tx_on (tx_run (create_table exec)) "ensure schema_migrations table" t).1 in
      let made = executed (create_table exec) t "ensure schema_migrations table" c.first in
      let c' = chained load rest t' c.then_ok in
      let read = executed (select_versions exec) t' "list applied migrations" c'.first in
      let (known, same) = select_versions-done t'.draft read.result in
      let (kept, listed) = create_table-done t.draft in
      let t'' = (load t').1 in
      let draft_kept : t''.draft ≡ t'.draft = read.effect ∙ same in
      let carried =
        apply_pending-Does exec files c'.value names t'' c'.value
          (ap (λ d. d.versions) draft_kept ∙ known) c'.then_ok in
      let names_known : c'.value ≡ applied_names t.draft.versions =
        some-injective (sym known ∙ (ap (λ d. d.versions) made.effect ∙ listed)) in
      subst
        (λ p.
          Carried exec files (applied_names t.draft.versions) names (applied_names t.draft.versions)
            t.draft p.1.draft)
        (sym (c.whole ∙ c'.whole))
        (Carried-from files names names_known
          (ap (λ d. d.schema) draft_kept ∙ (ap (λ d. d.schema) made.effect ∙ kept)) carried)

  -- An error and the database as it was, or the database after all pending migrations.
  abbrev pub AllOrNothing : Files → Migrated S → Result (Unit {0}) × Migrated S → Type 0
  AllOrNothing files db p = ((e : Error) × (p ≡ (err e, db))) ⊎ Upgraded exec files db p.1

  committed-AllOrNothing :
      (files : Files) (commit : Answer) (db draft : Migrated S)
      → Upgraded exec files db draft
      → AllOrNothing files db (committed commit db draft)
  committed-AllOrNothing files answered db draft u = inr u
  committed-AllOrNothing files (refused text) db draft u = inl (_, refl)
  committed-AllOrNothing files (lost text) db draft u = inr u

  ended-AllOrNothing :
      (files : Files) (commit : Answer) (db : Migrated S) (run : Result (Unit {0}) × TxState S)
      → (run.0 ≡ ok tt → Upgraded exec files db run.1.draft)
      → AllOrNothing files db (ended commit db run)
  ended-AllOrNothing files commit db (ok _, t) u =
      committed-AllOrNothing files commit db t.draft (u refl)
  ended-AllOrNothing files commit db (err e, t) u = inl (e, refl)

  end_of_run-AllOrNothing :
      (files : Files) (begin commit : Answer) (db : Migrated S)
      (run : Result (Unit {0}) × TxState S)
      → (run.0 ≡ ok tt → Upgraded exec files db run.1.draft)
      → AllOrNothing files db (end_of_run begin commit db run)
  end_of_run-AllOrNothing files answered commit db run u = ended-AllOrNothing files commit db run u
  end_of_run-AllOrNothing files (refused text) commit db run u = inl (_, refl)
  end_of_run-AllOrNothing files (lost text) commit db run u = inl (_, refl)

  upgraded :
      (files : Files) (names : List GoString) (answers : List Answer) (db : Migrated S)
      → list_migration_files files ≡ ok names
      → (in_transaction exec files names (record { draft = db; answers = answers })).0 ≡ ok tt
      → Upgraded exec files db
          (in_transaction exec files names (record { draft = db; answers = answers })).1.draft
  upgraded files names answers db listed e =
      let c = in_transaction-ok files names (record { draft = db; answers = answers }) e in
      record {
        names = names;
        listed = listed;
        migrations = c.migrations;
        read = c.read;
        schema_upgraded = c.schema_upgraded;
        versions_recorded = c.versions_recorded;
      }

  pub run-listed :
      (files : Files) (begin : Answer) (answers : List Answer) (commit : Answer) (db : Migrated S)
      {names : List GoString}
      → list_migration_files files ≡ ok names
      → run_migrations exec files begin answers commit db
        ≡ end_of_run begin commit db
            (in_transaction exec files names (record { draft = db; answers = answers }))
  unfolding run_migrations
  run-listed files begin answers commit db l = ground (arith, l)

  run-unlisted :
      (files : Files) (begin : Answer) (answers : List Answer) (commit : Answer) (db : Migrated S)
      {e : Error}
      → list_migration_files files ≡ err e
      → run_migrations exec files begin answers commit db ≡ (err e, db)
  unfolding run_migrations
  run-unlisted files begin answers commit db l = ground (arith, l)

  -- Whatever the files hold and however the connection fails, RunMigrations returns an error and
  -- leaves the database as it was, or it leaves the database after all pending migrations: read, in
  -- their order, without the blank ones, carried out one after the other and recorded.
  pub run_migrations_atomic :
      (files : Files) (begin : Answer) (answers : List Answer) (commit : Answer) (db : Migrated S)
      → AllOrNothing files db (run_migrations exec files begin answers commit db)
  run_migrations_atomic files begin answers commit db =
      elim (Result-cases (list_migration_files files)) [
        | inl (names, l) ↦ rw (run-listed files begin answers commit db l) (
            end_of_run-AllOrNothing files begin commit db
              (in_transaction exec files names (record { draft = db; answers = answers }))
              (upgraded files names answers db l))
        | inr (e, l) ↦ inl (e, run-unlisted files begin answers commit db l)
      ]
