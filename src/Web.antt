-- ===== src/Web.antt =====
-- The parts of src/web that lead a request to its handler.
pub mod RadixTree
pub mod Method
pub mod Router
pub mod Middleware
pub mod Request
pub mod Response
pub mod HttpParser
pub mod HttpSession
pub mod Context
pub mod AuthService
pub mod Auth
pub mod Upstream
pub mod Proxy
pub mod StaticFiles
pub mod Cors
pub mod Handshake
mod Examples
