-- ===== src/Crypto.antt =====
-- src/main/crypto: sealing and field encodings.
pub mod Aead
pub mod Lv
pub mod Kdf
pub mod Cpace
mod Examples
