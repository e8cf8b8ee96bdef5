-- ===== src/Lockfree.antt =====
-- The queues of include/lcr/lockfree.
pub mod Spsc
pub mod Ring
