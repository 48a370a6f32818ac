-- ===== src/Slots.antt =====
-- internal/service/slot_generator.go: the parser of HH:MM, the days of a schedule, the slots of a
-- date, and the test that a start lies on the schedule's grid.
pub mod Parse
pub mod Days
pub mod Generator
