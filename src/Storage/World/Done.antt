-- ===== src/Storage/World/Done.antt =====
-- Statements that answered and steps that succeeded, in any world.
use room_booking.Base.{List, [], ◌∷◌, ◌≡◌, refl, sym, ap}
use room_booking.Domain.Errors.{Error, Result, ok, err, ok-injective, ok-ne-err}
use room_booking.Storage.Tables.{Database, done, failed, Statement, DbError}
use room_booking.Storage.World.{
  World, Turn, Answer, answered, refused, lost, apply_writes, run_sql, run_turns, run_answer,
  Action, pure, ◌>>◌, ◌>>=◌,
}

pub done-ne-failed : {A : Type 0} {a : A} {e : DbError} → done a ≡ failed e → ⊥
done-ne-failed h = cc

pub done-injective : {A : Type 0} {a b : A} → done a ≡ done b → a ≡ b
done-injective e = cc

-- The statement ran on `before` with this answer and left `after`.
abbrev pub Ran : {A : Type 0} → Statement A → A → Database → Type 0
Ran s a after = (before : Database) × ((s before).0 ≡ done a) × (after ≡ (s before).1)

run_answer-done :
    {A : Type 0} (answer : Answer) (s : Statement A) (w : World) (turns : List Turn) (db : Database)
    {a : A}
    → (run_answer answer s w turns db).0 ≡ done a
    → Ran s a (run_answer answer s w turns db).1.db
run_answer-done answered s w turns db e = (db, e, refl)
run_answer-done (refused text) s w turns db e = absurd (cc)
run_answer-done (lost text) s w turns db e = absurd (cc)

run_turns-done :
    {A : Type 0} (turns : List Turn) (s : Statement A) (w : World) {a : A}
    → (run_turns turns s w).0 ≡ done a
    → Ran s a (run_turns turns s w).1.db
run_turns-done [] s w e = (w.db, e, refl)
run_turns-done (t ∷ turns) s w e = run_answer-done t.answer s w turns (apply_writes t.writes w.db) e

pub run_sql-done :
    {A : Type 0} (s : Statement A) (w : World) {a : A}
    → (run_sql s w).0 ≡ done a
    → Ran s a (run_sql s w).1.db
unfolding run_sql
run_sql-done s w e = run_turns-done w.turns s w e

then_cases :
    {A : Type 0} (r : Result (Unit {0})) (w : World) (a : A) {b : A}
    → (◌>>◌ (λ _. (r, w)) (pure a) w).0 ≡ ok b
    → (r ≡ ok tt) × (b ≡ a) × ((◌>>◌ (λ _. (r, w)) (pure a) w).1 ≡ w)
then_cases (ok tt) w a e = (refl, ok-injective (sym e), refl)
then_cases (err x) w a e = absurd (ok-ne-err (sym e))

-- A step and the return of a value succeed if the step does.
pub then-ok :
    {A : Type 0} (m : Action (Unit {0})) (a : A) (w : World) {b : A}
    → ((m >> pure a) w).0 ≡ ok b
    → ((m w).0 ≡ ok tt) × (b ≡ a) × (((m >> pure a) w).1 ≡ (m w).1)
then-ok m a w e = then_cases (m w).0 (m w).1 a e

-- A step that succeeds, followed by the return of a value, and a step that fails.
pub then-worked :
    {A : Type 0} (m : Action (Unit {0})) (a : A) (w w' : World)
    → m w ≡ (ok tt, w')
    → (m >> pure a) w ≡ (ok a, w')
then-worked m a w w' e = ap (λ p. ◌>>◌ (λ _. p) (pure a) w) e

pub then-failed :
    {A : Type 0} (m : Action (Unit {0})) (k : Action A) (w w' : World) (x : Error)
    → m w ≡ (err x, w')
    → (m >> k) w ≡ (err x, w')
then-failed m k w w' x e = ap (λ p. ◌>>◌ (λ _. p) k w) e

-- A step that succeeds, followed by what uses its value.
pub bind-worked :
    {A B : Type 0} (m : Action A) (f : A → Action B) (w w' : World) (a : A)
    → m w ≡ (ok a, w')
    → (m >>= f) w ≡ f a w'
bind-worked m f w w' a e = ap (λ p. ◌>>=◌ (λ _. p) f w) e

bind_cases :
    {A B : Type 0} (r : Result A) (w : World) (f : A → Action B) {b : B}
    → (◌>>=◌ (λ _. (r, w)) f w).0 ≡ ok b
    → (a : A) × (r ≡ ok a) × ((f a w).0 ≡ ok b)
bind_cases (ok a) w f e = (a, refl, e)
bind_cases (err x) w f e = absurd (ok-ne-err (sym e))

-- A chain succeeds if its steps do.
pub bind-ok :
    {A B : Type 0} (m : Action A) (f : A → Action B) (w : World) {b : B}
    → ((m >>= f) w).0 ≡ ok b
    → (a : A) × ((m w).0 ≡ ok a) × ((f a (m w).1).0 ≡ ok b)
bind-ok m f w e = bind_cases (m w).0 (m w).1 f e
