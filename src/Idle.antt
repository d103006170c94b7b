-- ===== src/Idle.antt =====
-- internal/idle: the activity tracker of a project, and the monitor that stops it when idle.
pub mod Tracker
pub mod Handshake
pub mod Monitor
mod Tests
