-- ===== src/Http/Middleware/Recovery.antt =====
-- internal/transport/http/middleware/recover.go, and logging.go under it, over a handler that may
-- panic before it writes.
use room_booking.Base.{Option, none, some, GoString, ◌≡◌, refl}
use room_booking.Storage.World.{World}
use room_booking.Http.Api as Api
use room_booking.Http.Api.{Reply, Served}
use room_booking.Http.Errors.{error_reply}
use room_booking.Http.Middleware.{Client, LogLine, logging}

-- A handler that came to its end, or the value of its panic.
pub data Outcome : Type 0 where
  returned : Reply → Outcome
  panicked : GoString → Outcome

abbrev pub Risky : Type 0
Risky = World → Outcome × World

-- The deferred function of `Recover`.
abbrev pub recovered : Outcome → Reply
recovered (returned r) = r
recovered (panicked value) = error_reply 500 Api.internal_error "internal server error"

unfoldable pub recover : Risky → Served
recover next w = let (o, w') = next w in (recovered o, w')

module _ (split_host : GoString → Option GoString) (c : Client) (method path : GoString) where
  -- `Logging` prints after `next.ServeHTTP` and defers nothing.
  abbrev pub line_after : World → Outcome → World → Option LogLine
  line_after w (returned r) w' = some (logging split_host c method path (λ _. (r, w')) w).0.1
  line_after w (panicked value) w' = none

  -- `Recover` around `Logging` around a handler, with the line, if one is printed.
  unfoldable pub guarded : Risky → World → (Reply × Option LogLine) × World
  unfolding recover
  guarded next w =
      let (o, w') = next w in
      let (r, w'') = recover (λ _. (o, w')) w in ((r, line_after w o w'), w'')

  -- A handler that does not panic is served as if `Recover` were not there.
  pub guarded-logging :
      (next : Served) (w : World)
      → guarded (λ w. (let (r, w') = next w in (returned r, w'))) w ≡ (
        (
          (logging split_host c method path next w).0.0,
          some (logging split_host c method path next w).0.1,
        ),
        (logging split_host c method path next w).1,
      )
  unfolding guarded logging
  guarded-logging next w = refl
