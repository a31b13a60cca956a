-- ===== src/Client.antt =====
-- src/client.rs, the reference client: what it reads from the SFU and what it sends.
pub mod Frames
pub mod LaneStream
pub mod Requests
