-- ===== src/Commands.antt =====
-- src/command-handler.ts
pub mod Arguments
pub mod Handlers
pub mod Replies
mod Tests
