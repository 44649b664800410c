-- ===== src/Election.antt =====
-- src/main/election: who becomes host next.
pub mod Succession
mod Examples
