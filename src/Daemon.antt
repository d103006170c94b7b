-- ===== src/Daemon.antt =====
-- internal/daemon.
pub mod Budget
pub mod Wildcard
pub mod Listeners
pub mod Reload
mod Tests
