-- ===== src/Domain/Entities.antt =====
-- The entities of internal/domain: booking.go, room.go, schedule.go, slot.go and user.go. A
-- pointer that may be nil is an `Option`. A UUID (an array of 16 bytes of package google/uuid)
-- is only compared: it stands as the number that its bytes spell.
use room_booking.Base.{ℕ, Option, List, GoString, ℤ}
use room_booking.Domain.Time.{Time}

abbrev pub Uuid : Type 0
Uuid = ℕ

pub record Booking : Type 0 where
  pub id : Uuid
  pub room_id : Uuid
  pub user_id : Uuid
  pub status_id : ℤ
  pub status : GoString
  pub start_at : Time
  pub end_at : Time
  pub conference_link : Option GoString
  pub created_at : Time
  pub cancelled_at : Option Time

pub record Room : Type 0 where
  pub id : Uuid
  pub name : GoString
  pub description : Option GoString
  pub capacity : Option ℤ
  pub created_at : Time

pub record Schedule : Type 0 where
  pub id : Uuid
  pub room_id : Uuid
  pub days_of_week : List ℤ
  pub start_time : GoString
  pub end_time : GoString
  pub created_at : Time

pub record Slot : Type 0 where
  pub room_id : Uuid
  pub start_at : Time
  pub end_at : Time

pub record User : Type 0 where
  pub id : Uuid
  pub email : GoString
  pub role_id : ℤ
  pub role : GoString
  pub password_hash : GoString
  pub created_at : Time
