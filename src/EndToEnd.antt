-- ===== src/EndToEnd.antt =====
-- src/server.rs and src/client.rs together: what one of them writes on a stream, and what the other
-- makes of it.
pub mod Session
pub mod Inbox
pub mod Lanes
pub mod Requests
pub mod Sends
