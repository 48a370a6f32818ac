-- ===== src/Storage/Migrations/Inversion.antt =====
-- What the steps of the runner of the migrations did, when they succeeded.
use room_booking.Base.{List, [], ◌∷◌, String, ◌≡◌, refl, sym}
use room_booking.Domain.Errors.{Result, ok, err, ok-ne-err}
use room_booking.Storage.Tables.{SqlResult, done, failed}
use room_booking.Storage.World.{Answer, answered, refused, lost}
use room_booking.Storage.Migrations.Transaction.{
  TxState, TxAction, Run, tx_run, tx_on, tx_turns, tx_answer, tx_result, ◌>>=◌,
}

-- The step succeeded as the first part of a chain, and the rest followed.
pub record Chained {S A B : Type 0} (m : TxAction S A) (f : A → TxAction S B) (t : TxState S)
    (b : B) : Type 0 where
  pub value : A
  pub first : (m t).0 ≡ ok value
  pub then_ok : (f value (m t).1).0 ≡ ok b
  pub whole : (m >>= f) t ≡ f value (m t).1

Chained-cases :
    {S A B : Type 0} (r : Result A) (t' : TxState S) (f : A → TxAction S B) (t : TxState S) {b : B}
    → (◌>>=◌ (λ (_ : TxState S). (r, t')) f t).0 ≡ ok b
    → Chained (λ (_ : TxState S). (r, t')) f t b
Chained-cases (ok a) t' f t e = record { value = a; first = refl; then_ok = e; whole = refl }
Chained-cases (err x) t' f t e = absurd (ok-ne-err (sym e))

pub chained :
    {S A B : Type 0} (m : TxAction S A) (f : A → TxAction S B) (t : TxState S) {b : B}
    → ((m >>= f) t).0 ≡ ok b
    → Chained m f t b
chained m f t e =
    let c = Chained-cases (m t).0 (m t).1 f t e in
    record { value = c.value; first = c.first; then_ok = c.then_ok; whole = c.whole }

-- The statement of a step answered, and its effect is in the draft.
pub record Executed {S A : Type 0} (s : Run S A) (a : A) (t t' : TxState S) : Type 0 where
  pub result : (s t.draft).0 ≡ done a
  pub effect : t'.draft ≡ (s t.draft).1

result-ok :
    {A : Type 0} (message : String) (r : SqlResult A) {a : A}
    → tx_result message r ≡ ok a
    → r ≡ done a
result-ok message (done a) e = cc
result-ok message (failed x) e = cc

answer-ok :
    {S A : Type 0} (answer : Answer) (answers : List Answer) (s : Run S A) (t : TxState S)
    (message : String) {a : A}
    → tx_result message (tx_answer answer answers s t.draft).0 ≡ ok a
    → Executed s a t (tx_answer answer answers s t.draft).1
answer-ok answered answers s t message e = record {
  result = result-ok message (s t.draft).0 e;
  effect = refl;
}
answer-ok (refused text) answers s t message e = absurd (ok-ne-err (sym e))
answer-ok (lost text) answers s t message e = absurd (ok-ne-err (sym e))

turns-ok :
    {S A : Type 0} (answers : List Answer) (s : Run S A) (t : TxState S) (message : String) {a : A}
    → tx_result message (tx_turns answers s t.draft).0 ≡ ok a
    → Executed s a t (tx_turns answers s t.draft).1
turns-ok [] s t message e = answer-ok answered [] s t message e
turns-ok (x ∷ answers) s t message e = answer-ok x answers s t message e

pub executed :
    {S A : Type 0} (s : Run S A) (t : TxState S) (message : String) {a : A}
    → (tx_on (tx_run s) message t).0 ≡ ok a
    → Executed s a t (tx_on (tx_run s) message t).1
executed s t message e = turns-ok t.answers s t message e
