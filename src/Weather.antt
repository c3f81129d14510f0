-- ===== src/Weather.antt =====
-- The sensor client of "Reverse Engineering a Network Application - p01".
pub mod State
pub mod Scanning
pub mod Input
pub mod Client
pub mod Loop
pub mod Session
mod Tests
