-- ===== src/Domain/Time.antt =====
-- Go's time.Time, as far as the program uses it: an instant, in nanoseconds since the zero time
-- 0001-01-01T00:00:00Z, with the location in which it is shown. The calendar fields are read of
-- times in UTC only. `Year`, `Month` and `Day` are used together, to rebuild a date by
-- `time.Date`; they stand here as one number, the day since the zero time, a Monday.
use room_booking.Base.{ℕ, ◌+◌, ◌*◌, ◌/◌, ◌%◌, Bool, ◌&&◌, ltb, ◌==◌}

pub record Time : Type 0 where
  pub nanos : ℕ
  pub zone : ℕ

-- The location `time.UTC`.
abbrev pub utc_zone : ℕ
utc_zone = 0

abbrev pub second : ℕ
second = 1000000000

abbrev pub minute : ℕ
minute = 60000000000

abbrev pub hour : ℕ
hour = 3600000000000

abbrev pub day : ℕ
day = 86400000000000

-- `t.UTC()`
abbrev pub utc : Time → Time
utc t = record { nanos = t.nanos; zone = utc_zone }

-- `t.Add(d)` for a duration that is not negative.
abbrev pub add : Time → ℕ → Time
add t d = record { nanos = t.nanos + d; zone = t.zone }

-- `t.Before(u)`; `t.After(u)` is `before u t`.
abbrev pub before : Time → Time → Bool
before t u = ltb t.nanos u.nanos

-- `t == u`, as a map key compares: instant and location.
abbrev pub time_eq : Time → Time → Bool
time_eq t u = (t.nanos == u.nanos) && (t.zone == u.zone)

-- `t.IsZero()`
abbrev pub is_zero : Time → Bool
is_zero t = t.nanos == 0

abbrev pub civil_day : Time → ℕ
civil_day t = t.nanos / day

-- `t.Hour()`, `t.Minute()`, `t.Second()`, `t.Nanosecond()`, of a time in UTC.
abbrev pub hour_of : Time → ℕ
hour_of t = t.nanos / hour % 24

abbrev pub minute_of : Time → ℕ
minute_of t = t.nanos / minute % 60

abbrev pub second_of : Time → ℕ
second_of t = t.nanos / second % 60

abbrev pub nanosecond_of : Time → ℕ
nanosecond_of t = t.nanos % second

-- `t.Weekday()`, with Sunday as 0.
abbrev pub weekday : Time → ℕ
weekday t = (civil_day t + 1) % 7

-- `time.Date(year, month, day, h, m, 0, 0, time.UTC)`
abbrev pub date : ℕ → ℕ → ℕ → Time
date d h m = record { nanos = d * day + h * hour + m * minute; zone = utc_zone }
