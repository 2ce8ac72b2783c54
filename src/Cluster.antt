-- ===== src/Cluster.antt =====
-- The parts of the cluster.
pub mod ConsistentHash
pub mod AtomicLock
pub mod Messages
pub mod Worker
pub mod Request
pub mod Console
pub mod Coordinator
pub mod Router
pub mod Rpc
mod Tests
