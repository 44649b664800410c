-- ===== src/Signaling.antt =====
-- src/main/signaling: the host's signaling server and its parts.
pub mod RateLimit
pub mod Heartbeat
pub mod Roster
pub mod Server
pub mod Client
pub mod Handshake
mod Examples
