-- ===== src/Subscription.antt =====
-- include/wirekrak/core/protocol/subscription: what the exchange has been asked for, per symbol.
pub mod Pending
pub mod Manager
pub mod Controller
