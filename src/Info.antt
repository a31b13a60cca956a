-- ===== src/Info.antt =====
-- src/info.rs: the HTTP listener that tells clients how to reach the SFU, and its client.
pub mod Text
pub mod Document
pub mod Http
