-- ===== src/Store.antt =====
-- rust/session-store/src/lib.rs: the session stores.
pub mod Rows
pub mod Memory
