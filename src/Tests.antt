-- ===== src/Tests.antt =====
-- The theorems at concrete inputs.
pub mod Storage
pub mod Clocks
pub mod Log
pub mod Locks
pub mod Transactions
pub mod Tables
pub mod Engines
pub mod Clusters
pub mod Hotspots
