-- ===== src/Http/Responses/Documented.antt =====
-- Every handler writes one of the responses of its operation.
use room_booking.Base.{
  ℕ, List, [], ◌∷◌, All, any, Option, none, some, String, Bool, true, false, Bool-cases, ◌==◌,
  ==_iff, ◌≡◌, inl, inr, if◌then◌else◌,
}
use mathlib.Core.Path.{subst}
use room_booking.Domain.Errors.{Error, Result, ok, err}
use room_booking.Storage.World.{World, Action}
use room_booking.Http.Api.{ErrorCode, Reply, Served}
use room_booking.Http.Errors.{map_domain_error, reply_of_error, error_reply, internal_error_reply}
use room_booking.Http.Handlers.{Actor, reply, respond, on_actor, on_body}

pub record Visited {R : Type 0} (visit : R → Reply) (r : Reply) : Type 0 where
  pub response : R
  pub written : r ≡ visit response

-- Any error with this status.
abbrev pub Status : {R : Type 0} → (R → Reply) → ℕ → Type 0
Status visit status =
    (code : ErrorCode) (message : String) → Visited visit (error_reply status code message)

-- What holds of all items holds of one that is found.
of_found : (P : ℕ → Type 0) (s : ℕ) (ss : List ℕ) → any (λ x. x == s) ss ≡ true → All P ss → P s
of_found P s [] e h = absurd (cc)
of_found P s (x ∷ ss) e h = elim (Bool-cases (x == s)) [
  | inl same ↦ subst P ((==_iff x s).0 same) h.0
  | inr other ↦ of_found P s ss (rw other at e) h.1
]

-- In every world the handler writes one of the responses.
pub record Writes {R : Type 0} (visit : R → Reply) (handler : Served) : Type 0 where
  pub writes : (w : World) → Visited visit (handler w).0

module _ {R : Type 0} {visit : R → Reply} where
  pub error-Visited :
      (statuses : List ℕ) (message : String) (e : Error)
      → All (Status visit) statuses
      → Visited visit (internal_error_reply message)
      → Visited visit (reply_of_error statuses message e)
  unfolding reply_of_error
  error-Visited statuses message e listed internal =
      let api = map_domain_error e in
      elim (Bool-cases (any (λ s. s == api.status) statuses)) [
        | inl found ↦
            rw found (of_found (Status visit) api.status statuses found listed api.code api.message)
        | inr other ↦ rw other internal
      ]

  pub reply-Writes : {r : Reply} → Visited visit r → Writes visit (reply r)
  reply-Writes v = record { writes = λ w. v }

  pub respond-Writes :
      {A : Type 0} {m : Action A} {f : Result A → Reply}
      → ((r : Result A) → Visited visit (f r))
      → Writes visit (respond m f)
  respond-Writes {m} v = record { writes = λ w. v (m w).0 }

  pub on_actor-Writes :
      {k : Actor → Served} (r : Result Actor)
      → Status visit 401
      → ((a : Actor) → Writes visit (k a))
      → Writes visit (on_actor k r)
  on_actor-Writes (err e) unauthorized v = reply-Writes (unauthorized _ _)
  on_actor-Writes (ok a) unauthorized v = v a

  pub on_body-Writes :
      {B : Type 0} {k : B → Served} (body : Option B)
      → Status visit 400
      → ((b : B) → Writes visit (k b))
      → Writes visit (on_body k body)
  on_body-Writes none invalid v = reply-Writes (invalid _ _)
  on_body-Writes (some b) invalid v = v b

  pub if-Writes :
      {x y : Served} (b : Bool)
      → Writes visit x
      → Writes visit y
      → Writes visit (if b then x else y)
  if-Writes true v v' = v
  if-Writes false v v' = v'
