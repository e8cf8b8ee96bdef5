-- ===== src/Transport.antt =====
-- include/wirekrak/core/transport: the logical connection over a WebSocket transport.
pub mod Policy
pub mod Url
pub mod State
pub mod Connection
