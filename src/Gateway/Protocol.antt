-- ===== src/Gateway/Protocol.antt =====
-- rust/gateway-protocol: frames, errors, commands and their results, events, times.
pub mod Frames
pub mod Errors
pub mod Commands
pub mod Results
pub mod Events
pub mod Time
