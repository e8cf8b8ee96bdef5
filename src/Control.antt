-- ===== src/Control.antt =====
-- include/lcr/control: control primitives over a stream of Boolean observations.
pub mod Hysteresis
pub mod Consecutive
pub mod Sequence
