-- ===== src/Proto/Priority.antt =====
-- src/proto.rs, `mod priority`: the QUIC send priorities.
use keep_talking_sfu.Prelude.{ℕ}

abbrev pub session : ℕ
session = 2

abbrev pub control : ℕ
control = 2

abbrev pub interactive : ℕ
interactive = 1

abbrev pub bulk : ℕ
bulk = 0
