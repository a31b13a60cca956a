-- ===== src/Proto/Close.antt =====
-- src/proto.rs, `mod close`: the application close codes.
use keep_talking_sfu.Prelude.{ℕ}

abbrev pub normal : ℕ
normal = 0

abbrev pub slow_consumer : ℕ
slow_consumer = 1

abbrev pub protocol : ℕ
protocol = 2

abbrev pub stalled : ℕ
stalled = 3

abbrev pub no_stream : ℕ
no_stream = 4
