-- ===== src/Server.antt =====
-- src/server.rs: what the server keeps, and what it does with the frames of its clients.
pub mod Deliver
pub mod BulkQueue
pub mod Stats
pub mod Outbound
pub mod World
pub mod Rooms
pub mod Bucket
pub mod Limits
pub mod Slots
pub mod Datagrams
pub mod Session
pub mod Writers
pub mod Connection
