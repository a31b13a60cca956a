-- ===== src/Proto.antt =====
-- src/proto.rs: the wire format of the SFU protocol.
pub mod Ids
pub mod Limits
pub mod Tag
pub mod Reason
pub mod Close
pub mod StreamError
pub mod Priority
pub mod Lane
pub mod Topic
pub mod Decode
pub mod Datagram
pub mod ClientFrame
pub mod ServerFrame
pub mod Stream
pub mod Snapshot
