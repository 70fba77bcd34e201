-- ===== src/Acp.antt =====
-- rust/acp-types and the adapter registry of rust/acp-adapters: what the session core sees of an
-- agent.
pub mod External
pub mod Kinds
pub mod Content
pub mod Metadata
pub mod Event
pub mod Adapter
