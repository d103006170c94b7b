-- ===== src/Config.antt =====
-- internal/config.
pub mod Project
pub mod Sample
pub mod EnvFiles
pub mod Hostname
pub mod Defaults
pub mod Errors
pub mod Validate
pub mod Discovery
pub mod ValidateDiscovery
pub mod ValidateConfig
pub mod Ports
pub mod Claims
pub mod Passes
pub mod Rounds
pub mod EntryPorts
pub mod Exclusive
pub mod Labels
pub mod Dynamic
pub mod Template
pub mod Materialised
pub mod Equivalent
mod Tests
