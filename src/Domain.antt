-- ===== src/Domain.antt =====
-- internal/domain: the entities, their status and role codes, the domain errors, and the part of
-- Go's package time that the program uses.
pub mod Errors
pub mod Time
pub mod Entities
pub mod Codes
