-- ===== src/Gateway/Server.antt =====
-- rust/gateway-server: connections, commands, authorization.
pub mod Auth
pub mod Scopes
pub mod State
pub mod Handlers
pub mod Sound
pub mod Dispatch
pub mod Process
pub mod Cache
pub mod Answers
pub mod Replies
pub mod Gates
pub mod Connection
