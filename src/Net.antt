-- ===== src/Net.antt =====
-- src/main/net: the links and frames of the control plane.
pub mod RelayWire
pub mod FrameCodec
pub mod Connection
pub mod RelayLink
mod Examples
