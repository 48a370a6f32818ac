-- ===== src/Http/Responses.antt =====
-- The responses of the operations of api/gen/server.gen.go.
pub mod Accounts
pub mod Rooms
pub mod Bookings
pub mod Documented
pub mod Operations
