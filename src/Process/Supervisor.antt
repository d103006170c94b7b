-- ===== src/Process/Supervisor.antt =====
-- internal/process/supervisor.go, one project's lifecycle. Each function models one critical
-- section (what runs with `mu` held) and returns the new fields with its effects, in order.
pub mod Types
pub mod Backoff
pub mod Start
pub mod Stop
pub mod Exit
