-- ===== src/Storage/ScheduleRepository/RoundTrip.antt =====
-- A schedule's time as PostgreSQL prints it, cut by `trimSeconds` and read by `parseHHMM`.
use room_booking.Base.{
  ℕ, zero, suc, ◌/◌, ◌%◌, ◌<◌, GoString, ◌∷◌, ◌++◌, Bool, true, false, ◌&&◌, ◌==◌, if◌then◌else◌,
  ◌≡◌, refl, arith, count_byte, split_on, atoi,
}
use room_booking.Domain.Errors.{Result, ok, err}
use room_booking.Slots.Parse.{parse_hhmm}
use room_booking.Storage.ScheduleRepository.{trim_seconds, two_digits, time_text}

-- HH:MM.
abbrev pub hhmm : ℕ → ℕ → GoString
hhmm h m = two_digits h ++ (b':' ∷ two_digits m)

trim_seconds-time_text : (t : ℕ) → trim_seconds (time_text t) ≡ hhmm (t / 3600) (t / 60 % 60)
unfolding trim_seconds time_text count_byte
trim_seconds-time_text t = ground arith

-- A test of the numbers below a bound.
tested : (ℕ → Bool) → ℕ → Bool
tested q zero = true
tested q (suc k) = if q k then tested q k else false

tested-below : (q : ℕ → Bool) (k : ℕ) {x : ℕ} → x < k → tested q k ≡ true → q x ≡ true
unfolding tested
tested-below q zero small passed = absurd (omega arith)
tested-below q (suc k) {x} small passed = ground (arith, tested-below q k {x = x})

-- Whether a parse gave this hour and minute.
reads : Result (ℕ × ℕ) → ℕ → ℕ → Bool
reads (ok (a, b)) h m = a == h && b == m
reads (err e) h m = false

reads_sound : (r : Result (ℕ × ℕ)) (h m : ℕ) → reads r h m ≡ true → r ≡ ok (h, m)
unfolding reads
reads_sound (ok (a, b)) h m e = ground arith
reads_sound (err e) h m p = cc

-- All the times of the day, by evaluation.
table : tested (λ h. tested (λ m. reads (parse_hhmm (hhmm h m)) h m) 60) 24 ≡ true
unfolding tested reads parse_hhmm split_on atoi
table = refl

parse_hhmm-hhmm : (h m : ℕ) → h < 24 → m < 60 → parse_hhmm (hhmm h m) ≡ ok (h, m)
parse_hhmm-hhmm h m p q = reads_sound (parse_hhmm (hhmm h m)) h m (
    tested-below (λ m. reads (parse_hhmm (hhmm h m)) h m) 60 q
      (tested-below (λ h. tested (λ m. reads (parse_hhmm (hhmm h m)) h m) 60) 24 p table))

-- A time of the day that the database holds, cast to text and trimmed of its seconds, is parsed
-- back to its hour and minute.
pub parse_hhmm-trim_seconds :
    (t : ℕ) → t < 86400 → parse_hhmm (trim_seconds (time_text t)) ≡ ok (t / 3600, t / 60 % 60)
parse_hhmm-trim_seconds t h =
    rw trim_seconds-time_text (parse_hhmm-hhmm (t / 3600) (t / 60 % 60) (omega arith) (omega arith))
