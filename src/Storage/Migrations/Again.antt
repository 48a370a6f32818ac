-- ===== src/Storage/Migrations/Again.antt =====
-- A run of the migrations after one that succeeded finds nothing left to do.
use room_booking.Base.{
  List, [], ◌∷◌, All, Option, some, GoString, codes, text_eq, text_eq_refl, trim_space, true, false,
  Bool-cases, ◌≡◌, inl, inr, refl, sym, ap, ◌∙◌, arith,
}
use mathlib.Core.Path.{subst}
use room_booking.Domain.Errors.{ok, ok-ne-err}
use room_booking.Storage.World.{Answer, answered}
use room_booking.Storage.Migrations.{Files, in_set, run_migrations}
use room_booking.Storage.Migrations.Transaction.{Migrated}
use room_booking.Storage.Migrations.Upgrade.{
  Migration, read_all, pending, with_text, recorded, applied_names, carried_out, Upgraded,
}
use room_booking.Storage.Migrations.Atomic.{run_migrations_atomic}
use room_booking.Storage.Migrations.Complete.{read_all-cons, run_migrations_complete}

in_set-recorded_old :
    (ms : List Migration) (old : List GoString) (name : GoString)
    → in_set old name ≡ true
    → in_set (recorded ms old) name ≡ true
unfolding recorded
in_set-recorded_old [] old name h = h
in_set-recorded_old (m ∷ ms) old name h =
    in_set-recorded_old ms (m.0 ∷ old) name (ground (arith, h))

in_set-recorded :
    (ms : List Migration) (old : List GoString)
    → All (λ (m : Migration). in_set (recorded ms old) m.0 ≡ true) ms
unfolding recorded
in_set-recorded [] old = tt
in_set-recorded (m ∷ ms) old =
    (in_set-recorded_old ms (m.0 ∷ old) m.0 (rw (text_eq_refl m.0)), in_set-recorded ms (m.0 ∷ old))

module _ (files : Files) (old new : List GoString) where
  abbrev AllKnown : List Migration → Type 0
  AllKnown ms = All (λ (m : Migration). in_set new m.0 ≡ true) (with_text ms)

  -- Only blank files are left of these.
  record Settled (names : List GoString) : Type 0 where
    pub blanks : List Migration
    pub read : read_all files (pending new names) ≡ some blanks
    pub no_text : with_text blanks ≡ []

  Settled-known :
      (name : GoString) (names : List GoString)
      → in_set new name ≡ true
      → Settled names
      → Settled (name ∷ names)
  Settled-known name names e s = record {
    blanks = s.blanks;
    read = rw e s.read;
    no_text = s.no_text;
  }

  Settled-blank :
      (name : GoString) (names : List GoString) (body : GoString)
      → in_set new name ≡ false
      → files.read_file name ≡ some body
      → text_eq (trim_space body) (codes "") ≡ true
      → Settled names
      → Settled (name ∷ names)
  unfolding read_all
  Settled-blank name names body e r b s = record {
    blanks = (name, trim_space body) ∷ s.blanks;
    read = rw (e, r, s.read);
    no_text = rw b s.no_text;
  }

  AllKnown-tail : (m : Migration) (ms : List Migration) → AllKnown (m ∷ ms) → AllKnown ms
  AllKnown-tail m ms k = elim (Bool-cases (text_eq m.1 (codes ""))) [
    | inl b ↦ rw b at k
    | inr b ↦ (let k' : (in_set new m.0 ≡ true) × AllKnown ms = rw b at k in k'.1)
  ]

  AllKnown-text :
      (m : Migration) (ms : List Migration)
      → in_set new m.0 ≡ false
      → AllKnown (m ∷ ms)
      → text_eq m.1 (codes "") ≡ true
  AllKnown-text m ms e k = elim (Bool-cases (text_eq m.1 (codes ""))) [
    | inl b ↦ b
    | inr b ↦ (let k' : (in_set new m.0 ≡ true) × AllKnown ms = rw b at k in cc)
  ]

  module _ (grown : (name : GoString) → in_set old name ≡ true → in_set new name ≡ true) where
    settle :
        (names : List GoString) (ms : List Migration)
        → read_all files (pending old names) ≡ some ms
        → AllKnown ms
        → Settled names
    unfolding read_all
    settle [] ms r k = record { blanks = []; read = refl; no_text = refl }
    settle (name ∷ names) ms r k = elim (Bool-cases (in_set old name)) [
      | inl e ↦ Settled-known name names (grown name e) (settle names ms (rw e at r) k)
      | inr e ↦
          let c = read_all-cons files name (pending old names) (rw e at r) in
          let k' : AllKnown ((name, trim_space c.body) ∷ c.rest) = subst AllKnown c.all k in
          let rest =
            settle names c.rest c.read_rest (AllKnown-tail (name, trim_space c.body) c.rest k') in
          elim (Bool-cases (in_set new name)) [
            | inl n ↦ Settled-known name names n rest
            | inr n ↦
                Settled-blank name names c.body n c.read
                  (AllKnown-text (name, trim_space c.body) c.rest n k') rest
          ]
    ]

module _ {S : Type 0} (exec : S → GoString → Option S) where
  again :
      (files : Files) (db db' : Migrated S)
      → Upgraded exec files db db'
      → run_migrations exec files answered [] answered db' ≡ (ok tt, db')
  unfolding carried_out recorded
  again files db db' u =
      let old = applied_names db.versions in
      let new = recorded (with_text u.migrations) old in
      let known : applied_names db'.versions ≡ new = ap applied_names u.versions_recorded in
      let s =
        settle files old new (in_set-recorded_old (with_text u.migrations) old) u.names u.migrations
          u.read (in_set-recorded (with_text u.migrations) old) in
      let run =
        run_migrations_complete exec files db' u.names s.blanks db'.schema u.listed
          (rw known s.read) (rw (s.no_text) refl) (rw (s.no_text) tt) in
      run
      ∙ ap (λ v. (ok tt, record { schema = db'.schema; versions = v }))
          (rw (s.no_text) (ap some known ∙ sym u.versions_recorded))

  -- After a run of RunMigrations that succeeded, another run over the same files, on a connection
  -- that does not fail, succeeds and changes nothing.
  pub run_migrations_again :
      (files : Files) (begin : Answer) (answers : List Answer) (commit : Answer)
      (db db' : Migrated S)
      → run_migrations exec files begin answers commit db ≡ (ok tt, db')
      → run_migrations exec files answered [] answered db' ≡ (ok tt, db')
  run_migrations_again files begin answers commit db db' e =
      elim (run_migrations_atomic exec files begin answers commit db) [
        | inl (x, q) ↦ absurd (ok-ne-err (ap (λ p. p.0) (sym e ∙ q)))
        | inr u ↦ again files db db' (subst (λ p. Upgraded exec files db p.1) e u)
      ]
