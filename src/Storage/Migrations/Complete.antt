-- ===== src/Storage/Migrations/Complete.antt =====
-- With a connection that does not fail, a run of migrations that can be read and carried out
-- succeeds.
use room_booking.Base.{
  List, [], ◌∷◌, Option, none, some, Option-cases, GoString, codes, text_eq, trim_space, true,
  false, Bool-cases, some-injective, ◌≡◌, inl, inr, refl, sym, ap, ◌∙◌, arith,
}
use mathlib.Core.Path.{subst}
use room_booking.Domain.Errors.{ok}
use room_booking.Storage.World.{answered}
use room_booking.Storage.Migrations.{
  Files, in_set, list_migration_files, apply_one, apply_pending_migrations,
  ensure_schema_migrations_table, load_applied_migrations, in_transaction, run_migrations,
}
use room_booking.Storage.Migrations.Transaction.{Migrated, TxState, ◌>>◌, ended}
use room_booking.Storage.Migrations.Upgrade.{
  Migration, read_all, pending, with_text, recorded, applied_names, carried_out,
}
use room_booking.Storage.Migrations.Loop.{apply-skipped, apply-blank, apply-text}
use room_booking.Storage.Migrations.Atomic.{run-listed}

-- The names that get recorded are new.
abbrev pub Fresh : List Migration → List GoString → Type 0
Fresh [] old = Unit {0}
Fresh (m ∷ ms) old = (in_set old m.0 ≡ false) × Fresh ms (m.0 ∷ old)

-- A file that was read in front of the others.
pub record Read (files : Files) (name : GoString) (names : List GoString) (ms : List Migration)
    : Type 0 where
  pub body : GoString
  pub rest : List Migration
  pub read : files.read_file name ≡ some body
  pub read_rest : read_all files names ≡ some rest
  pub all : ms ≡ (name, trim_space body) ∷ rest

pub read_all-cons :
    (files : Files) (name : GoString) (names : List GoString) {ms : List Migration}
    → read_all files (name ∷ names) ≡ some ms
    → Read files name names ms
unfolding read_all
read_all-cons files name names e = elim (Option-cases (files.read_file name)) [
  | inl r ↦ absurd (ground (arith, r))
  | inr (body, r) ↦ elim (Option-cases (read_all files names)) [
    | inl q ↦ absurd (ground (arith, r, q))
    | inr (rest, q) ↦ record {
      body = body;
      rest = rest;
      read = r;
      read_rest = q;
      all = ground (arith, r, q);
    }
  ]
]

module _ {S : Type 0} (exec : S → GoString → Option S) where
  -- A transaction on this database, on a connection that does not fail.
  abbrev pub steady : S → List GoString → TxState S
  steady s names = record { draft = record { schema = s; versions = some names }; answers = [] }

  apply_one-runs :
      (name statement : GoString) (s : S) (old : List GoString) {s' : S}
      → exec s statement ≡ some s'
      → in_set old name ≡ false
      → apply_one exec name statement (steady s old) ≡ (ok tt, steady s' (name ∷ old))
  apply_one-runs name statement s old e fresh = ground (arith, e, fresh)

  carried_out-cons :
      (m : Migration) (ms : List Migration) (s : S) {s' : S}
      → carried_out exec (m ∷ ms) s ≡ some s'
      → (s₁ : S) × (exec s m.1 ≡ some s₁) × (carried_out exec ms s₁ ≡ some s')
  unfolding carried_out
  carried_out-cons m ms s c = elim (Option-cases (exec s m.1)) [
    | inl e ↦ absurd (ground (arith, e))
    | inr (s₁, e) ↦ (s₁, e, ground (arith, e))
  ]

  module _ (files : Files) (applied : List GoString) where
    -- From here the loop leaves the migrations carried out and recorded.
    abbrev Runs : List GoString → List Migration → Type 0
    Runs names ms =
        (s : S) (old : List GoString) (s' : S)
        → carried_out exec (with_text ms) s ≡ some s'
        → Fresh (with_text ms) old
        → apply_pending_migrations exec files names applied (steady s old)
          ≡ (ok tt, steady s' (recorded (with_text ms) old))

    Runs-text :
        (name : GoString) (names : List GoString) (ms : List Migration) (body : GoString)
        → in_set applied name ≡ false
        → files.read_file name ≡ some body
        → text_eq (trim_space body) (codes "") ≡ false
        → Runs names ms
        → Runs (name ∷ names) ((name, trim_space body) ∷ ms)
    unfolding recorded
    Runs-text name names ms body e r b ih =
        let rest = apply_pending_migrations exec files names applied in
        let m : Migration = (name, trim_space body) in
        rw b (
          rw (apply-text exec files applied name names e r b) (λ s old s' c f.
            let (s₁, ran, more) = carried_out-cons m (with_text ms) s c in
            ap (λ p. ◌>>◌ (λ (_ : TxState S). p) rest (steady s old))
              (apply_one-runs name (trim_space body) s old ran f.0)
            ∙ ih s₁ (name ∷ old) s' more f.1))

    Runs-blank :
        (name : GoString) (names : List GoString) (ms : List Migration) (body : GoString)
        → in_set applied name ≡ false
        → files.read_file name ≡ some body
        → text_eq (trim_space body) (codes "") ≡ true
        → Runs names ms
        → Runs (name ∷ names) ((name, trim_space body) ∷ ms)
    Runs-blank name names ms body e r b ih =
        rw b (rw (apply-blank exec files applied name names e r b) ih)

    Runs-read :
        (name : GoString) (names : List GoString) (body : GoString) (ms : List Migration)
        → in_set applied name ≡ false
        → files.read_file name ≡ some body
        → Runs names ms
        → Runs (name ∷ names) ((name, trim_space body) ∷ ms)
    Runs-read name names body ms e r ih = elim (Bool-cases (text_eq (trim_space body) (codes ""))) [
      | inl b ↦ Runs-blank name names ms body e r b ih
      | inr b ↦ Runs-text name names ms body e r b ih
    ]

    Runs-nil : Runs [] []
    unfolding apply_pending_migrations carried_out recorded
    Runs-nil s old s' c f = ground (arith, c)

    apply_pending-Runs :
        (names : List GoString) (ms : List Migration)
        → read_all files (pending applied names) ≡ some ms
        → Runs names ms
    unfolding read_all
    apply_pending-Runs [] ms r = subst (Runs []) (some-injective r) Runs-nil
    apply_pending-Runs (name ∷ names) ms r = elim (Bool-cases (in_set applied name)) [
      | inl e ↦
          rw (apply-skipped exec files applied name names e)
            (apply_pending-Runs names ms (rw e at r))
      | inr e ↦
          let c = read_all-cons files name (pending applied names) (rw e at r) in
          subst (Runs (name ∷ names)) (sym c.all) (
            Runs-read name names c.body c.rest e c.read
              (apply_pending-Runs names c.rest c.read_rest))
    ]

  in_transaction-steady :
      (files : Files) (names : List GoString) (s : S) (versions : Option (List GoString))
      → in_transaction exec files names
          (record { draft = record { schema = s; versions = versions }; answers = [] })
        ≡ apply_pending_migrations exec files names
            (applied_names versions)
            (steady s (applied_names versions))
  unfolding in_transaction ensure_schema_migrations_table load_applied_migrations
  in_transaction-steady files names s none = refl
  in_transaction-steady files names s (some old) = refl

  -- With the listing, the reads and the texts in order, the run ends well.
  pub run_migrations_complete :
      (files : Files) (db : Migrated S) (names : List GoString) (ms : List Migration) (s' : S)
      → list_migration_files files ≡ ok names
      → read_all files (pending (applied_names db.versions) names) ≡ some ms
      → carried_out exec (with_text ms) db.schema ≡ some s'
      → Fresh (with_text ms) (applied_names db.versions)
      → run_migrations exec files answered [] answered db ≡ (
        ok tt,
        record {
          schema = s';
          versions = some (recorded (with_text ms) (applied_names db.versions));
        },
      )
  run_migrations_complete files db names ms s' l r c f =
      run-listed exec files answered [] answered db l
      ∙ ap (ended answered db) (
          in_transaction-steady files names db.schema db.versions
          ∙ apply_pending-Runs files (applied_names db.versions) names ms r db.schema
              (applied_names db.versions) s' c f)
