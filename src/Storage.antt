-- ===== src/Storage.antt =====
-- internal/storage/postgres over the schema of migrations/*.sql: the tables with their
-- constraints, the SQL statements that the repositories send, the world in which they run (other
-- clients, a connection that may fail) and the repositories.
pub mod Tables
pub mod Statements
pub mod Bookings
pub mod World
pub mod WellFormed
pub mod Failures
pub mod Migrations
pub mod BookingRepository
pub mod ScheduleRepository
pub mod UserRepository
pub mod RoomRepository
