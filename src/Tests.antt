-- ===== src/Tests.antt =====
-- Concrete instances of the interfaces, and the theorems at concrete inputs.
pub mod Memory
pub mod Samples
pub mod Permissions
pub mod Sessions
pub mod Routes
pub mod Storage
pub mod Packages
pub mod Seeds
pub mod Sockets
pub mod Migrations
pub mod Creation
pub mod Completions
pub mod Exports
pub mod Buckets
pub mod Settings
pub mod Helpers
