-- ===== src/Storage/Migrations/Transaction.antt =====
-- A transaction of pgx as the runner of the migrations uses it: it works on a draft of the
-- database, which a commit puts in place.
use room_booking.Base.{List, [], ◌∷◌, Option, GoString, String}
use room_booking.Domain.Errors.{Result, ok, err, wrap}
use room_booking.Storage.Tables.{SqlResult, done, failed, failure}
use room_booking.Storage.World.{Answer, answered, refused, lost}
use room_booking.Storage.Failures.{driver_error}

-- The database as the runner sees it: the schema and the table schema_migrations, if it is there.
pub record Migrated (S : Type 0) : Type 0 where
  pub schema : S
  pub versions : Option (List GoString)

-- `answers` tells how the connection serves the next statements; when it is used up, all answer.
pub record TxState (S : Type 0) : Type 0 where
  pub draft : Migrated S
  pub answers : List Answer

abbrev pub Run : Type 0 → Type 0 → Type 0
Run S A = Migrated S → SqlResult A × Migrated S

abbrev pub TxAction : Type 0 → Type 0 → Type 0
TxAction S A = TxState S → Result A × TxState S

abbrev pub tx_result : {A : Type 0} → String → SqlResult A → Result A
tx_result message (done a) = ok a
tx_result message (failed e) = err (wrap message (driver_error e))

module _ {S A : Type 0} where
  -- The draft of a statement whose answer did not come does not matter: it is rolled back.
  abbrev pub tx_answer : Answer → List Answer → Run S A → Migrated S → SqlResult A × TxState S
  tx_answer answered answers s draft =
      let (r, after) = s draft in (r, record { draft = after; answers = answers })
  tx_answer (refused text) answers s draft =
      (failed (failure text), record { draft = draft; answers = answers })
  tx_answer (lost text) answers s draft =
      (failed (failure text), record { draft = draft; answers = answers })

  abbrev pub tx_turns : List Answer → Run S A → Migrated S → SqlResult A × TxState S
  tx_turns [] s draft = tx_answer answered [] s draft
  tx_turns (a ∷ answers) s draft = tx_answer a answers s draft

  abbrev pub tx_run : Run S A → TxState S → SqlResult A × TxState S
  tx_run s t = tx_turns t.answers s t.draft

  -- A query and its error, wrapped.
  abbrev pub tx_on : (TxState S → SqlResult A × TxState S) → String → TxAction S A
  tx_on q message t = let (r, t') = q t in (tx_result message r, t')

  abbrev pub tx_pure : A → TxAction S A
  tx_pure a t = (ok a, t)

  abbrev pub tx_lift : Result A → TxAction S A
  tx_lift r t = (r, t)

infixl 5 ◌>>=◌ ◌>>◌
abbrev pub ◌>>=◌ : {S A B : Type 0} → TxAction S A → (A → TxAction S B) → TxAction S B
◌>>=◌ m f t = let (r, t') = m t in elim r [ ok a ↦ f a t' | err e ↦ (err e, t') ]

abbrev pub ◌>>◌ : {S B : Type 0} → TxAction S (Unit {0}) → TxAction S B → TxAction S B
m >> k = m >>= λ _. k

module _ {S : Type 0} where
  -- What `Commit` leaves: a commit whose answer is lost has taken place.
  abbrev pub committed : Answer → Migrated S → Migrated S → Result (Unit {0}) × Migrated S
  committed answered db draft = (ok tt, draft)
  committed (refused text) db draft =
      (err (wrap "commit migrations tx" (driver_error (failure text))), db)
  committed (lost text) db draft =
      (err (wrap "commit migrations tx" (driver_error (failure text))), draft)

  abbrev pub ended :
      Answer → Migrated S → Result (Unit {0}) × TxState S → Result (Unit {0}) × Migrated S
  ended commit db (ok _, t) = committed commit db t.draft
  ended commit db (err e, t) = (err e, db)

  -- The end of a run: the transaction begins only if `Begin` answers.
  abbrev pub end_of_run :
      Answer → Answer → Migrated S → Result (Unit {0}) × TxState S → Result (Unit {0}) × Migrated S
  end_of_run answered commit db run = ended commit db run
  end_of_run (refused text) commit db run =
      (err (wrap "begin migrations tx" (driver_error (failure text))), db)
  end_of_run (lost text) commit db run =
      (err (wrap "begin migrations tx" (driver_error (failure text))), db)
