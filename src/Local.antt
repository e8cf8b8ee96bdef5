-- ===== src/Local.antt =====
-- include/lcr/local: containers for one thread.
pub mod Ring
