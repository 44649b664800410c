-- ===== src/Sfu.antt =====
-- src/main/sfu: the forwarding unit in the host process.
pub mod Governor
pub mod Router
pub mod MediaPlane
mod Examples
