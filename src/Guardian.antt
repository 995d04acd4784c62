-- ===== src/Guardian.antt =====
-- src/guardian/: the cycle that compares the deposited keys with the keys to be deposited.
pub mod Schedule
pub mod State
pub mod BlockGuard
pub mod Message
pub mod Metrics
pub mod ModuleGuard
pub mod Cycle
