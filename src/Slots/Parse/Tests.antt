-- ===== src/Slots/Parse/Tests.antt =====
-- Runs of `parse_hhmm`.
use room_booking.Base.{split_on, atoi, codes, ◌≡◌, refl}
use room_booking.Domain.Errors.{ok, err, plain}
use room_booking.Slots.Parse.{parse_hhmm}

parse_hhmm_tests :
    (parse_hhmm (codes "09:30") ≡ ok (9, 30))
    × (parse_hhmm (codes "+9:0") ≡ ok (9, 0))
    × (parse_hhmm (codes "24:00") ≡ err (plain "time is out of range"))
    × (parse_hhmm (codes "09:30:00") ≡ err (plain "invalid time format"))
unfolding parse_hhmm split_on atoi
parse_hhmm_tests = (refl, refl, refl, refl)
