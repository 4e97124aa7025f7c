-- ===== src/Raft.antt =====
-- The Raft core: the package of navi/.
pub mod State
pub mod Invariant
pub mod Config
pub mod Cluster
pub mod Storage
pub mod Persistence
pub mod Election
pub mod Replication
pub mod Advance
pub mod Membership
pub mod Network
pub mod Rpc
pub mod Lifecycle
