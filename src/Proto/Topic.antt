-- ===== src/Proto/Topic.antt =====
-- src/proto.rs, `Topic`: a room key of 32 opaque bytes.
pub mod Hex
use keep_talking_sfu.Prelude.{◌≡◌, Bool, true, false, ite, replicate, length, ℕ_discrete, arith}
use keep_talking_sfu.Prelude.Wire.{Bytes}

-- `[u8; 32]`: that there are 32 bytes is `IsTopic`.
pub record Topic : Type 0 where
  pub bytes : Bytes

abbrev pub IsTopic : Topic → Type 0
IsTopic t = length t.bytes ≡ 32

unfoldable pub discrete : Discrete Topic
discrete = hlevel ℕ_discrete

-- `Topic::ZERO`, the reserved topic.
abbrev pub zero_topic : Topic
zero_topic = record { bytes = replicate 32 0 }

unfoldable pub is_zero : Topic → Bool
is_zero t = ite (discrete t zero_topic) true false

pub zero_topic-is_zero : is_zero zero_topic ≡ true
unfolding is_zero
zero_topic-is_zero = ground arith

pub is_zero-eq : (t : Topic) → is_zero t ≡ true → t ≡ zero_topic
unfolding is_zero
is_zero-eq t h = ground arith
