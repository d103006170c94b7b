-- ===== src/Discovery.antt =====
-- internal/discovery.
mod Sample
mod Tests
pub mod Scan
pub mod PortCommand
pub mod PortBounds
pub mod Build
pub mod Owned
pub mod BuildOwned
pub mod Registry
pub mod Start
pub mod Made
pub mod HerdActions
pub mod Entry
pub mod WildcardSync
pub mod Sync
pub mod Remove
pub mod DryRunEntry
pub mod DryRun
pub mod Commands
pub mod Retired
pub mod Again
pub mod SyncAgain
