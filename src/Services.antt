-- ===== src/Services.antt =====
-- The services that the program calls and does not implement.
pub mod Redis
pub mod Memory
pub mod Codec
pub mod Scheduler
pub mod Formats
