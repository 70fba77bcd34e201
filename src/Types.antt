-- ===== src/Types.antt =====
-- rust/session-core/src/types.rs: the vocabulary of the session core.
pub mod Block
pub mod Payload
pub mod Event
pub mod Request
