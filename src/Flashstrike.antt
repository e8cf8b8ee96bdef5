-- ===== src/Flashstrike.antt =====
-- The matching engine under integrations/include/flashstrike.
pub mod Types
pub mod IdMap
pub mod Pool
pub mod Partition
pub mod PartitionPool
pub mod Store
pub mod Book
pub mod Matching
