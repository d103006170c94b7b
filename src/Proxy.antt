-- ===== src/Proxy.antt =====
-- internal/proxy.
pub mod Hold
pub mod Held
mod Tests
