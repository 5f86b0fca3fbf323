-- ===== src/Web/Upstream.antt =====
-- src/web/UpstreamSession.cpp and src/web/UpstreamPool.cpp: requests that are passed on to another
-- server, and what it answers.
pub mod Parse
pub mod Session
pub mod Phases
pub mod Steps
pub mod CutOff
pub mod Once
pub mod Pool
pub mod Lines
pub mod Headers
pub mod Ends
pub mod Layout
pub mod Fields
pub mod Relay
mod Examples
