-- ===== src/Aof.antt =====
-- The append-only file.
pub mod Logger
pub mod Flush
pub mod Entries
pub mod Recovery
mod Tests
