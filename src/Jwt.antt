-- ===== src/Jwt.antt =====
-- JSON web tokens: src/web/auth/JwtCodec.cpp.
pub mod Base64
pub mod Codec
mod Examples
