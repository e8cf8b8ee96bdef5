-- ===== src/Request.antt =====
-- include/wirekrak/core/protocol/request: how requests are sent.
pub mod Scheduler
