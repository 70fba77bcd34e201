-- ===== src/Manager.antt =====
-- rust/session-core/src/manager.rs: the session manager.
pub mod State
pub mod Journal
pub mod Steps
pub mod Turns
pub mod Events
pub mod Pump
pub mod Replay
pub mod Labels
pub mod Open
pub mod Listing
pub mod Recover
pub mod Api
pub mod Invariant
