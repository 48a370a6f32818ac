-- ===== src/Domain/Errors.antt =====
-- internal/domain/errors.go: the sentinel errors, Go's wrapping by fmt.Errorf("...: %w", err),
-- and results with an error.
use room_booking.Base.{◌≡◌, ◌⊎◌, inl, inr, refl, ℕ, String, Bool, false, ◌==◌}

-- The `Err...` variables, in the order of the file.
pub data Sentinel : Type 0 where
  room_not_found schedule_exists schedule_not_found slot_not_found slot_already_booked : Sentinel
  booking_not_found forbidden invalid_request email_taken invalid_credentials : Sentinel
  user_not_found : Sentinel

-- A Go error: a sentinel, an error of any other origin, or one that wraps another.
pub data Error : Type 0 where
  domain : Sentinel → Error
  plain : String → Error
  wrap : String → Error → Error

abbrev sentinel_code : Sentinel → ℕ
sentinel_code room_not_found = 0
sentinel_code schedule_exists = 1
sentinel_code schedule_not_found = 2
sentinel_code slot_not_found = 3
sentinel_code slot_already_booked = 4
sentinel_code booking_not_found = 5
sentinel_code forbidden = 6
sentinel_code invalid_request = 7
sentinel_code email_taken = 8
sentinel_code invalid_credentials = 9
sentinel_code user_not_found = 10

abbrev pub sentinel_eq : Sentinel → Sentinel → Bool
sentinel_eq a b = sentinel_code a == sentinel_code b

-- `errors.Is`: the error or one that it wraps is the sentinel.
unfoldable pub errors_is : Error → Sentinel → Bool
errors_is (domain s) t = sentinel_eq s t
errors_is (plain message) t = false
errors_is (wrap message e) t = errors_is e t

-- A call's value or its error.
pub data Result (A : Type 0) : Type 0 where
  ok : A → Result A
  err : Error → Result A

-- `if err != nil { return ..., err }` and the rest.
infixl 5 ◌>>=◌ ◌>>◌
abbrev pub ◌>>=◌ : {A B : Type 0} → Result A → (A → Result B) → Result B
ok a >>= f = f a
err e >>= f = err e

abbrev pub ◌>>◌ : {B : Type 0} → Result (Unit {0}) → Result B → Result B
m >> k = m >>= λ _. k

-- `if err != nil { return ..., fmt.Errorf("...: %w", err) }`
abbrev pub wrapped : {A : Type 0} → String → Result A → Result A
wrapped message (ok a) = ok a
wrapped message (err e) = err (wrap message e)

-- `if test { return ..., e }`
abbrev pub fail_if : Bool → Error → Result (Unit {0})
fail_if Bool.true e = err e
fail_if Bool.false e = ok tt

pub Result-cases :
    {A : Type 0} (r : Result A) → ((a : A) × (r ≡ ok a)) ⊎ ((e : Error) × (r ≡ err e))
Result-cases (ok a) = inl (a, refl)
Result-cases (err e) = inr (e, refl)

pub ok-injective : {A : Type 0} {a b : A} → ok a ≡ ok b → a ≡ b
ok-injective e = cc

pub ok-ne-err : {A : Type 0} {a : A} {e : Error} → ok a ≡ err e → ⊥
ok-ne-err h = cc
