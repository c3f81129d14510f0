-- ===== src/Jukebox.antt =====
-- The server of the streaming music protocol, "Streaming Music Protocol - p05/server".
pub mod Protocol
pub mod SongLibrary
pub mod State
pub mod Chunked
pub mod Networking
pub mod Client
pub mod Server
mod Tests
mod ServerTests
