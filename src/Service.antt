-- ===== src/Service.antt =====
-- internal/service: the business logic over the repositories. What a call takes from outside is
-- an argument: the clock, new UUIDs, `now()` of the database.
pub mod ScheduleService
pub mod RoomService
pub mod SlotService
pub mod BookingService
pub mod AuthService
pub mod Invariant
