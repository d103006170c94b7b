-- ===== src/Envfile.antt =====
-- internal/envfile: env files.
pub mod Parse
pub mod Load
pub mod Trim
pub mod RoundTrip
pub mod Override
pub mod Names
pub mod ChildEnv
pub mod Entries
pub mod Precedence
pub mod Secrets
mod Tests
