-- ===== src/Torero.antt =====
-- The web server of "ToreroServe (A Lean Web Server) - p02".
pub mod Buffer
pub mod Pages
pub mod Request
pub mod Serve
pub mod Start
pub mod Socket
mod Tests
mod ServeTests
