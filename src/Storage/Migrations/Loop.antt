-- ===== src/Storage/Migrations/Loop.antt =====
-- What the loop over the files did, when it succeeded.
use room_booking.Base.{
  List, [], ◌∷◌, Option, none, some, Option-cases, GoString, codes, text_eq, trim_space, true,
  false, Bool-cases, if◌then◌else◌, ◌≡◌, inl, inr, refl, sym, ap, ◌∙◌,
}
use mathlib.Core.Path.{subst}
use room_booking.Domain.Errors.{ok, ok-ne-err}
use room_booking.Storage.Migrations.{Files, in_set, body_of, apply_one, apply_pending_migrations}
use room_booking.Storage.Migrations.Transaction.{Migrated, TxState, TxAction, tx_lift, ◌>>=◌, ◌>>◌}
use room_booking.Storage.Migrations.Inversion.{chained}
use room_booking.Storage.Migrations.Upgrade.{
  Migration, read_all, pending, with_text, recorded, carried_out,
}
use room_booking.Storage.Migrations.Single.{Applied, apply_one-ok}

module _ {S : Type 0} (exec : S → GoString → Option S) where
  -- The pending ones of these names were carried out.
  pub record Carried (files : Files) (applied names old : List GoString) (d d' : Migrated S)
      : Type 0 where
    pub migrations : List Migration
    pub read : read_all files (pending applied names) ≡ some migrations
    pub schema_upgraded : carried_out exec (with_text migrations) d.schema ≡ some d'.schema
    pub versions_recorded : d'.versions ≡ some (recorded (with_text migrations) old)

  module _ (files : Files) (applied : List GoString) where
    abbrev pub on_body : GoString → TxAction S (Unit {0}) → GoString → TxAction S (Unit {0})
    on_body name rest body =
        if text_eq (trim_space body) (codes "")
        then rest
        else (apply_one exec name (trim_space body) >> rest)

    apply-cons :
        (name : GoString) (names : List GoString)
        → apply_pending_migrations exec files (name ∷ names) applied ≡ (
            let rest = apply_pending_migrations exec files names applied in
            if in_set applied name
            then rest
            else (tx_lift (body_of (files.read_file name)) >>= on_body name rest))
    unfolding apply_pending_migrations
    apply-cons name names = refl

    pub apply-skipped :
        (name : GoString) (names : List GoString)
        → in_set applied name ≡ true
        → apply_pending_migrations exec files (name ∷ names) applied
          ≡ apply_pending_migrations exec files names applied
    apply-skipped name names e = rw (apply-cons name names, e)

    apply-read :
        (name : GoString) (names : List GoString)
        → in_set applied name ≡ false
        → apply_pending_migrations exec files (name ∷ names) applied ≡ (
            tx_lift (body_of (files.read_file name))
            >>= on_body name (apply_pending_migrations exec files names applied))
    apply-read name names e = rw (apply-cons name names, e)

    body_of-ok : (o : Option GoString) {body : GoString} → body_of o ≡ ok body → o ≡ some body
    body_of-ok none e = cc
    body_of-ok (some b) e = cc

    on_body-blank :
        (name : GoString) (rest : TxAction S (Unit {0})) (body : GoString)
        → text_eq (trim_space body) (codes "") ≡ true
        → on_body name rest body ≡ rest
    on_body-blank name rest body b = rw b

    on_body-text :
        (name : GoString) (rest : TxAction S (Unit {0})) (body : GoString)
        → text_eq (trim_space body) (codes "") ≡ false
        → on_body name rest body ≡ (apply_one exec name (trim_space body) >> rest)
    on_body-text name rest body b = rw b

    pub apply-blank :
        (name : GoString) (names : List GoString) {body : GoString}
        → in_set applied name ≡ false
        → files.read_file name ≡ some body
        → text_eq (trim_space body) (codes "") ≡ true
        → apply_pending_migrations exec files (name ∷ names) applied
          ≡ apply_pending_migrations exec files names applied
    apply-blank name names {body} e r b =
        rw (apply-cons name names, e, r)
          (on_body-blank name (apply_pending_migrations exec files names applied) body b)

    pub apply-text :
        (name : GoString) (names : List GoString) {body : GoString}
        → in_set applied name ≡ false
        → files.read_file name ≡ some body
        → text_eq (trim_space body) (codes "") ≡ false
        → apply_pending_migrations exec files (name ∷ names) applied ≡ (
            apply_one exec name (trim_space body)
            >> apply_pending_migrations exec files names applied)
    apply-text name names {body} e r b =
        rw (apply-cons name names, e, r)
          (on_body-text name (apply_pending_migrations exec files names applied) body b)

    Carried-nil :
        (t : TxState S) {old : List GoString}
        → t.draft.versions ≡ some old
        → Carried files applied [] old t.draft t.draft
    unfolding read_all carried_out recorded
    Carried-nil t v = record {
      migrations = [];
      read = refl;
      schema_upgraded = refl;
      versions_recorded = v;
    }

    Carried-skipped :
        (name : GoString) (names : List GoString) {old : List GoString} {d d' : Migrated S}
        → in_set applied name ≡ true
        → Carried files applied names old d d'
        → Carried files applied (name ∷ names) old d d'
    Carried-skipped name names e c = record {
      migrations = c.migrations;
      read = rw e c.read;
      schema_upgraded = c.schema_upgraded;
      versions_recorded = c.versions_recorded;
    }

    Carried-blank :
        (name : GoString) (names : List GoString) {old : List GoString} {body : GoString}
        {d d' : Migrated S}
        → in_set applied name ≡ false
        → files.read_file name ≡ some body
        → text_eq (trim_space body) (codes "") ≡ true
        → Carried files applied names old d d'
        → Carried files applied (name ∷ names) old d d'
    unfolding read_all
    Carried-blank name names {body} e r b c = record {
      migrations = (name, trim_space body) ∷ c.migrations;
      read = rw (e, r, c.read);
      schema_upgraded = rw b c.schema_upgraded;
      versions_recorded = rw b c.versions_recorded;
    }

    Carried-text :
        (name : GoString) (names : List GoString) {old : List GoString} {body : GoString}
        {d d' d'' : Migrated S}
        → in_set applied name ≡ false
        → files.read_file name ≡ some body
        → text_eq (trim_space body) (codes "") ≡ false
        → Applied exec name (trim_space body) old d d'
        → Carried files applied names (name ∷ old) d' d''
        → Carried files applied (name ∷ names) old d d''
    unfolding read_all carried_out recorded
    Carried-text name names {body} e r b a c = record {
      migrations = (name, trim_space body) ∷ c.migrations;
      read = rw (e, r, c.read);
      schema_upgraded = rw b (rw (a.ran) c.schema_upgraded);
      versions_recorded = rw b c.versions_recorded;
    }

    -- What a successful step from `t` with `old` recorded has done.
    abbrev pub Done : List GoString → TxAction S (Unit {0}) → TxState S → List GoString → Type 0
    Done names m t old = (m t).0 ≡ ok tt → Carried files applied names old t.draft (m t).1.draft

    abbrev pub Does : List GoString → TxAction S (Unit {0}) → Type 0
    Does names m =
        (t : TxState S) (old : List GoString) → t.draft.versions ≡ some old → Done names m t old

    apply-unreadable :
        (name : GoString) (names : List GoString)
        → in_set applied name ≡ false
        → files.read_file name ≡ none
        → apply_pending_migrations exec files (name ∷ names) applied ≡ (
            tx_lift (body_of none)
            >>= on_body name (apply_pending_migrations exec files names applied))
    apply-unreadable name names e r = rw (apply-cons name names, e, r)

    unreadable :
        (name : GoString) (names : List GoString)
        → in_set applied name ≡ false
        → files.read_file name ≡ none
        → Does (name ∷ names) (apply_pending_migrations exec files (name ∷ names) applied)
    unreadable name names e r t old v ran =
        absurd (ok-ne-err (sym ran ∙ ap (λ m. (m t).0) (apply-unreadable name names e r)))

    with-text :
        (name : GoString) (names : List GoString) {body : GoString}
        → in_set applied name ≡ false
        → files.read_file name ≡ some body
        → text_eq (trim_space body) (codes "") ≡ false
        → Does names (apply_pending_migrations exec files names applied)
        → Does (name ∷ names) (
            apply_one exec name (trim_space body)
            >> apply_pending_migrations exec files names applied)
    with-text name names {body} e r b ih t old v ran =
        let rest = apply_pending_migrations exec files names applied in
        let c = chained (apply_one exec name (trim_space body)) (λ _. rest) t ran in
        let t' = (apply_one exec name (trim_space body) t).1 in
        let a = apply_one-ok exec name (trim_space body) t v c.first in
        subst (λ p. Carried files applied (name ∷ names) old t.draft p.1.draft) (sym c.whole)
          (Carried-text name names e r b a (ih t' (name ∷ old) a.recorded_name c.then_ok))

    found :
        (name : GoString) (names : List GoString) (body : GoString)
        → in_set applied name ≡ false
        → files.read_file name ≡ some body
        → Does names (apply_pending_migrations exec files names applied)
        → Does (name ∷ names) (apply_pending_migrations exec files (name ∷ names) applied)
    found name names body e r ih = elim (Bool-cases (text_eq (trim_space body) (codes ""))) [
      | inl b ↦
          subst (Does (name ∷ names)) (sym (apply-blank name names e r b))
            (λ t old v ran. Carried-blank name names e r b (ih t old v ran))
      | inr b ↦
          subst (Does (name ∷ names)) (sym (apply-text name names e r b))
            (with-text name names e r b ih)
    ]

    not_applied :
        (name : GoString) (names : List GoString)
        → in_set applied name ≡ false
        → Does names (apply_pending_migrations exec files names applied)
        → Does (name ∷ names) (apply_pending_migrations exec files (name ∷ names) applied)
    not_applied name names e ih = elim (Option-cases (files.read_file name)) [
      | inl r ↦ unreadable name names e r
      | inr (body, r) ↦ found name names body e r ih
    ]

    pub apply_pending-Does :
        (names : List GoString) → Does names (apply_pending_migrations exec files names applied)
    unfolding apply_pending_migrations
    apply_pending-Does [] = λ t old v ran. Carried-nil t v
    apply_pending-Does (name ∷ names) = elim (Bool-cases (in_set applied name)) [
      | inl e ↦
          subst (Does (name ∷ names)) (sym (apply-skipped name names e))
            (λ t old v ran. Carried-skipped name names e (apply_pending-Does names t old v ran))
      | inr e ↦ not_applied name names e (apply_pending-Does names)
    ]
