-- ===== src/Examples.antt =====
-- The theorems at concrete inputs, and tests of the definitions.
pub mod Config
pub mod Discovery
pub mod Http
pub mod Logger
pub mod Cas
pub mod Xsign
pub mod Settings
pub mod Clients
pub mod Queries
pub mod Services
pub mod Sockets
pub mod Orders
pub mod Clusters
pub mod Sessions
pub mod Flags
