-- ===== src/Rpc.antt =====
-- rust/acp-types: JSON-RPC between the host and an agent, from the bytes up.
pub mod Wire
pub mod Transport
pub mod Client
pub mod Calls
pub mod Handlers
pub mod Gate
