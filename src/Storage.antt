-- ===== src/Storage.antt =====
-- The key-value engine of src/storage-engine.ts.
pub mod LruList
pub mod ExpiryIndex
pub mod BigInt
pub mod Engine
pub mod Packed
pub mod Tracked
pub mod Invariant
pub mod Preserved
pub mod Steps
pub mod Lookups
pub mod Numbers
pub mod Views
pub mod Sweep
pub mod Swept
pub mod SweepEnds
pub mod Runs
pub mod Sizes
mod Tests
