-- ===== src/Storage/Migrations/Single.antt =====
-- One migration in a transaction: what its two statements did, when they succeeded.
use room_booking.Base.{
  List, ◌∷◌, Option, some, Option-cases, GoString, ◌≡◌, inl, inr, sym, ap, ◌∙◌, arith,
}
use room_booking.Domain.Errors.{ok}
use room_booking.Storage.Tables.{done}
use room_booking.Storage.Migrations.{exec_text, insert_version, apply_one}
use room_booking.Storage.Migrations.Transaction.{Migrated, TxState, tx_on, tx_run}
use room_booking.Storage.Migrations.Inversion.{chained, executed}

module _ {S : Type 0} (exec : S → GoString → Option S) where
  -- A migration whose text ran and whose name is recorded.
  pub record Applied (name statement : GoString) (names : List GoString) (d d' : Migrated S)
      : Type 0 where
    pub ran : exec d.schema statement ≡ some d'.schema
    pub recorded_name : d'.versions ≡ some (name ∷ names)

  exec_text-done :
      (statement : GoString) (d : Migrated S)
      → (exec_text exec statement d).0 ≡ done tt
      → (exec d.schema statement ≡ some (exec_text exec statement d).1.schema)
        × ((exec_text exec statement d).1.versions ≡ d.versions)
  exec_text-done statement d e = elim (Option-cases (exec d.schema statement)) [
    | inl p ↦ ground (arith, p)
    | inr (s, p) ↦ ground (arith, p)
  ]

  insert_version-done :
      (name : GoString) (d : Migrated S) {names : List GoString}
      → d.versions ≡ some names
      → (insert_version exec name d).0 ≡ done tt
      → ((insert_version exec name d).1.schema ≡ d.schema)
        × ((insert_version exec name d).1.versions ≡ some (name ∷ names))
  insert_version-done name d v e = ground (arith)

  pub apply_one-ok :
      (name statement : GoString) (t : TxState S) {names : List GoString}
      → t.draft.versions ≡ some names
      → (apply_one exec name statement t).0 ≡ ok tt
      → Applied name statement names t.draft (apply_one exec name statement t).1.draft
  apply_one-ok name statement t v e =
      let c =
        chained (tx_on (tx_run (exec_text exec statement)) "apply migration")
          (λ _. tx_on (tx_run (insert_version exec name)) "record migration") t e in
      let ran = executed (exec_text exec statement) t "apply migration" c.first in
      let t' = (tx_on (tx_run (exec_text exec statement)) "apply migration" t).1 in
      let noted = executed (insert_version exec name) t' "record migration" c.then_ok in
      let (schema, kept) = exec_text-done statement t.draft ran.result in
      let (same, added) =
        insert_version-done name t'.draft (ap (λ d. d.versions) ran.effect ∙ (kept ∙ v))
          noted.result in
      let left : (apply_one exec name statement t).1.draft ≡ (insert_version exec name t'.draft).1 =
        ap (λ p. p.1.draft) c.whole ∙ noted.effect in
      record {
        ran =
            schema
            ∙ ap some (sym (ap (λ d. d.schema) left ∙ (same ∙ ap (λ d. d.schema) ran.effect)));
        recorded_name = ap (λ d. d.versions) left ∙ added;
      }
