-- ===== src/Tests.antt =====
-- Runs of the definitions at concrete inputs, and the theorems at inputs that meet their hypotheses.
mod Flashstrike
mod Engine
mod Book
mod Matching
mod Control
mod Subscription
mod Replay
mod Transport
mod Url
mod Lockfree
mod Symbol
mod Local
mod Session
