-- ===== src/Buffer.antt =====
-- The buffers of the core: include/servercore/buffer.
pub mod Recv
pub mod Send
pub mod Chunk
mod Examples
