-- ===== src/Tests/Data.antt =====
-- A database of one room, open on Mondays and Wednesdays from 9:00 to 10:30, one user and one
-- active booking, on day 0 at 9:00.
use room_booking.Base.{pos, [], ◌∷◌, none, some, codes, refl, arith}
use room_booking.Domain.Time.{Time, date}
use room_booking.Storage.Tables.{UserRow, RoomRow, ScheduleRow, BookingRow, Database}
use room_booking.Storage.Bookings.{taken}
use room_booking.Storage.WellFormed.{WellFormed}

abbrev pub ann : UserRow
ann = record {
  id = 7;
  email = codes "ann@example.com";
  role_id = pos 2;
  password_hash = none;
  created_at = 0;
}

abbrev pub blue_room : RoomRow
blue_room = record {
  id = 1;
  name = codes "Blue";
  description = none;
  capacity = some (pos 4);
  created_at = 0;
}

abbrev pub mornings : ScheduleRow
mornings = record {
  id = 3;
  room_id = 1;
  days_of_week = pos 1 ∷ pos 3 ∷ [];
  start_time = 32400;
  end_time = 37800;
  created_at = 0;
}

abbrev pub at_nine : BookingRow
at_nine = record {
  id = 5;
  room_id = 1;
  user_id = 7;
  status_id = pos 1;
  start_at = 32400000000;
  end_at = 34200000000;
  conference_link = none;
  created_at = 0;
  cancelled_at = none;
}

abbrev pub office : Database
office = record {
  users = ann ∷ [];
  rooms = blue_room ∷ [];
  schedules = mornings ∷ [];
  bookings = at_nine ∷ [];
}

-- Midnight, and the start that is free.
abbrev pub midnight : Time
midnight = date 0 0 0

abbrev pub half_past : Time
half_past = date 0 9 30

pub office-WellFormed : WellFormed office
unfolding taken
office-WellFormed = record {
  one_active = ((λ active. refl), tt);
  distinct_ids = (refl, tt);
  bookings =
      (record { lasts = refl; room_known = refl; user_known = refl; status_known = refl }, tt);
  distinct_emails = (refl, tt);
  roles = (refl, tt);
  capacities = (refl, tt);
  one_per_room = (refl, tt);
  schedules = (
    record {
      room_known = refl;
      end_in_day = omega arith;
      window = omega arith;
      start_step = refl;
      end_step = refl;
      some_day = omega arith;
      iso_days = refl;
    },
    tt,
  );
}
