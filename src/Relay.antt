-- ===== src/Relay.antt =====
-- server/src: the hosted relay.
pub mod Wire
pub mod Registry
mod Examples
