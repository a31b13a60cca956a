-- ===== src/Server/Limits.antt =====
-- src/server.rs, `Limits` and its defaults. Durations are nanoseconds, rates are in `f64`.
use keep_talking_sfu.Prelude.{ℕ, ◌+◌, ◌*◌}
use keep_talking_sfu.Proto.Limits.{
  max_members_per_topic, max_topics_per_connection, snapshot_chunk_entries, snapshot_chunk_bytes,
}
use keep_talking_sfu.Server.Bucket.{Doubles, Rate, frames_only}

abbrev pub mib : ℕ
mib = 1024 * 1024

-- `Duration::from_secs`
abbrev pub from_secs : ℕ → ℕ
from_secs n = n * 1000000000

pub record Limits (F : Type 0) : Type 0 where
  pub max_members_per_topic : ℕ
  pub max_topics_per_connection : ℕ
  pub snapshot_chunk_entries : ℕ
  pub snapshot_chunk_bytes : ℕ
  pub max_connections : ℕ
  pub handshake_timeout : ℕ
  pub stream_open_timeout : ℕ
  pub max_lane_streams : ℕ
  pub outbox_bytes : ℕ
  pub bulk_outbox_bytes : ℕ
  pub max_bulk_streams : ℕ
  pub stall_timeout : ℕ
  pub publish_rate : Rate F
  pub join_rate : Rate F
  pub datagram_rate : Rate F

-- `Limits::default`
unfoldable pub default_limits : {F : Type 0} ⦃f64 : Doubles F⦄ → Limits F
default_limits ⦃f64⦄ = record {
  max_members_per_topic = max_members_per_topic;
  max_topics_per_connection = max_topics_per_connection;
  snapshot_chunk_entries = snapshot_chunk_entries;
  snapshot_chunk_bytes = snapshot_chunk_bytes;
  max_connections = 10000;
  handshake_timeout = from_secs 15;
  stream_open_timeout = from_secs 10;
  max_lane_streams = 16;
  outbox_bytes = 8 * mib;
  bulk_outbox_bytes = 8 * mib;
  max_bulk_streams = 16;
  stall_timeout = from_secs 20;
  publish_rate = record {
    bytes_per_second = f64.from_usize (4 * mib);
    burst_bytes = f64.from_usize (4 * mib);
    frames_per_second = f64.from_usize 200;
    burst_frames = f64.from_usize 400;
  };
  join_rate = frames_only (f64.from_usize 50) (f64.from_usize (max_topics_per_connection + 88));
  datagram_rate = record {
    bytes_per_second = f64.from_usize mib;
    burst_bytes = f64.from_usize (2 * mib);
    frames_per_second = f64.from_usize 1000;
    burst_frames = f64.from_usize 2000;
  };
}
