-- ===== src/Server/Stats.antt =====
-- src/server.rs, `Stats` and `LaneCounts`: counters that wrap at 64 bits.
use keep_talking_sfu.Prelude.{ℕ, ◌+◌, ◌%◌, ◌^◌}
use keep_talking_sfu.Proto.Lane.{Lane, control, interactive, bulk}

-- `AtomicU64::fetch_add`
abbrev pub fetch_add : ℕ → ℕ → ℕ
fetch_add counter n = (counter + n) % 2 ^ 64

unfoldable pub bump : ℕ → ℕ
bump counter = fetch_add counter 1

-- A counter for each lane; the source's arrays are indexed by `Lane::index`.
pub record LaneCounts : Type 0 where
  pub control : ℕ
  pub interactive : ℕ
  pub bulk : ℕ

unfoldable pub add_at : Lane → ℕ → LaneCounts → LaneCounts
add_at control n c = record c { control = fetch_add c.control n }
add_at interactive n c = record c { interactive = fetch_add c.interactive n }
add_at bulk n c = record c { bulk = fetch_add c.bulk n }

unfoldable pub get : LaneCounts → Lane → ℕ
get c control = c.control
get c interactive = c.interactive
get c bulk = c.bulk

unfoldable pub total : LaneCounts → ℕ
total c = fetch_add (fetch_add c.control c.interactive) c.bulk

pub record Stats : Type 0 where
  pub connections : ℕ
  pub connections_refused : ℕ
  pub no_stream : ℕ
  pub slow_consumers : ℕ
  pub stalled : ℕ
  pub published : LaneCounts
  pub delivered : LaneCounts
  pub directed : ℕ
  pub bulk_dropped : ℕ
  pub bulk_stalled : ℕ
  pub bad_lanes : ℕ
  pub bulk_stopped : ℕ
  pub rate_limited : ℕ
  pub malformed : ℕ
  pub datagrams_in : ℕ
  pub datagrams_out : ℕ
  pub datagrams_dropped : ℕ

abbrev pub no_counts : LaneCounts
no_counts = record { control = 0; interactive = 0; bulk = 0 }

-- `Stats::default()`
abbrev pub init : Stats
init = record {
  connections = 0;
  connections_refused = 0;
  no_stream = 0;
  slow_consumers = 0;
  stalled = 0;
  published = no_counts;
  delivered = no_counts;
  directed = 0;
  bulk_dropped = 0;
  bulk_stalled = 0;
  bad_lanes = 0;
  bulk_stopped = 0;
  rate_limited = 0;
  malformed = 0;
  datagrams_in = 0;
  datagrams_out = 0;
  datagrams_dropped = 0;
}
