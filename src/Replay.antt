-- ===== src/Replay.antt =====
-- include/wirekrak/core/protocol/replay: the acknowledged requests that are sent again after a
-- reconnect.
pub mod Table
pub mod Database
