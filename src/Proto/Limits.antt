-- ===== src/Proto/Limits.antt =====
-- src/proto.rs: the bounds of the protocol.
use keep_talking_sfu.Prelude.{ℕ, ◌+◌, ◌*◌, ◌^◌}

abbrev pub max_announce_len : ℕ
max_announce_len = 1024

abbrev pub max_publish_len : ℕ
max_publish_len = 2 ^ 20

abbrev pub max_frame_len : ℕ
max_frame_len = max_publish_len + 64 * 1024

abbrev pub max_members_per_topic : ℕ
max_members_per_topic = 1024

abbrev pub max_topics_per_connection : ℕ
max_topics_per_connection = 512

abbrev pub snapshot_chunk_entries : ℕ
snapshot_chunk_entries = 256

abbrev pub snapshot_chunk_bytes : ℕ
snapshot_chunk_bytes = 256 * 1024

abbrev pub snapshot_more : ℕ
snapshot_more = 0x01
