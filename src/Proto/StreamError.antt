-- ===== src/Proto/StreamError.antt =====
-- src/proto.rs, `mod stream_error`: the error codes on lane streams.
use keep_talking_sfu.Prelude.{ℕ}

abbrev pub unknown_lane : ℕ
unknown_lane = 1

abbrev pub bulk_trailing : ℕ
bulk_trailing = 2

abbrev pub malformed : ℕ
malformed = 3

abbrev pub stalled : ℕ
stalled = 4
