-- ===== src/Matchmaker.antt =====
-- The matchmaker: src/game/matchmaker.
pub mod Query
pub mod Queue
pub mod Pairing
mod Examples
