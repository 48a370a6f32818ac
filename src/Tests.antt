-- ===== src/Tests.antt =====
-- Concrete data, runs of the model and instances of the theorems.
pub mod Data
pub mod Library
pub mod Schedules
pub mod Slots
pub mod Bookings
pub mod Requests
pub mod Migrations
pub mod Wire
pub mod Accounts
pub mod Lists
