-- ===== src/Gateway.antt =====
-- rust/gateway-protocol and rust/gateway-server: the protocol that clients speak, and its server.
pub mod Protocol
pub mod Server
