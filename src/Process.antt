-- ===== src/Process.antt =====
-- internal/process.
pub mod Ring
pub mod Supervisor
pub mod System
mod Tests
