-- ===== src/Tests.antt =====
-- The theorems at concrete inputs, and runs of the operations.
pub mod Samples
pub mod Elections
pub mod Logs
pub mod Durability
pub mod Exchanges
pub mod Codecs
pub mod Networks
pub mod Lifecycles
pub mod Consoles
pub mod Screens
pub mod Nodes
pub mod Startups
pub mod Requests
