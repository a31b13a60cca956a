-- ===== src/Proto/Lane.antt =====
-- src/proto.rs, `Lane`: the lane that a lane stream carries, named by the stream's first byte.
use keep_talking_sfu.Prelude.{
  ℕ, ◌≡◌, refl, ◌↔◌, Option, none, some, List, [], ◌∷◌, arith, ◌==◌, if◌then◌else◌,
}
use keep_talking_sfu.Prelude.Wire.{Bytes}
use keep_talking_sfu.Proto.Priority

pub data Lane : Type 0 where
  control interactive bulk : Lane

abbrev pub all : List Lane
all = control ∷ interactive ∷ bulk ∷ []

unfoldable pub from_byte : ℕ → Option Lane
from_byte byte =
    if byte == 0x01
    then some control
    else if byte == 0x02
    then some interactive
    else if byte == 0x03
    then some bulk
    else none

unfoldable pub byte : Lane → ℕ
byte control = 0x01
byte interactive = 0x02
byte bulk = 0x03

unfoldable pub prefix : Lane → Bytes
prefix control = 0x01 ∷ []
prefix interactive = 0x02 ∷ []
prefix bulk = 0x03 ∷ []

unfoldable pub index : Lane → ℕ
index control = 0
index interactive = 1
index bulk = 2

unfoldable pub priority : Lane → ℕ
priority control = Priority.control
priority interactive = Priority.interactive
priority bulk = Priority.bulk

-- A byte names a lane exactly when it is that lane's byte.
pub from_byte-eq-some : (b : ℕ) (lane : Lane) → (from_byte b ≡ some lane) ↔ (b ≡ byte lane)
unfolding from_byte byte
from_byte-eq-some b control = ground arith
from_byte-eq-some b interactive = ground arith
from_byte-eq-some b bulk = ground arith

pub from_byte-byte : (lane : Lane) → from_byte (byte lane) ≡ some lane
unfolding from_byte byte
from_byte-byte control = refl
from_byte-byte interactive = refl
from_byte-byte bulk = refl

pub prefix-byte : (lane : Lane) → prefix lane ≡ byte lane ∷ []
unfolding prefix byte
prefix-byte control = refl
prefix-byte interactive = refl
prefix-byte bulk = refl
