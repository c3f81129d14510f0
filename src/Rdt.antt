-- ===== src/Rdt.antt =====
-- The reliable data transport library (IReliable Data Transport - p04).
pub mod Segment
pub mod Clock
pub mod State
pub mod Unreliable
pub mod Reliable
pub mod Acks
pub mod Heard
pub mod Sender
pub mod Receiver
pub mod Closing
pub mod Apps
mod Samples
pub mod Link
mod Tests
mod TransferTests
mod LinkTests
mod SenderTests
