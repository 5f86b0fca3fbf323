-- ===== src/WebSocket.antt =====
-- WebSocket frames: include/serverweb/WsFrame.h, src/web/ws and src/game/WsFrameBuilder.cpp.
pub mod Frame
pub mod Parser
pub mod Builder
pub mod Wire
pub mod Session
mod Examples
