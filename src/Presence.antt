-- ===== src/Presence.antt =====
-- Players that are online and the topics they follow: PlayerRegistry and PresenceTracker.
pub mod Registry
pub mod Tracker
mod Examples
