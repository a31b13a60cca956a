-- ===== src/Proto/Topic/Hex.antt =====
-- src/proto.rs, `Topic` as hex digits: `hex`, `fmt_short`, `Display` and `from_hex`.
use keep_talking_sfu.Prelude.{
  ℕ, ◌+◌, ◌*◌, ◌-◌, ◌/◌, ◌%◌, ◌<◌, ◌≡◌, refl, ap, Bool, true, false, not, ◌&&◌, Option, none, some,
  [], ◌∷◌, All, length, take, ltb, leb, ◌==◌, if◌then◌else◌, arith,
}
use keep_talking_sfu.Prelude.Outcome.{Outcome, ok, err, panic, ◌>>=◌, ◌>>◌, ensure}
use keep_talking_sfu.Prelude.Wire.{Bytes}
use keep_talking_sfu.Proto.Topic.{Topic, IsTopic}

-- A digit of `{:02x}`, in lower case.
abbrev pub digit : ℕ → ℕ
digit n = if ltb n 10 then 48 + n else 87 + n

-- `hex`
unfoldable pub hex : Bytes → Bytes
hex [] = []
hex (b ∷ rest) = digit (b / 16) ∷ digit (b % 16) ∷ hex rest

-- `Topic::fmt_short`
unfoldable pub fmt_short : Topic → Bytes
unfolding hex
fmt_short t = hex (take 5 t.bytes)

-- `char::to_digit(16)`
abbrev pub value_of : ℕ → Option ℕ
value_of c =
    if leb 48 c && leb c 57
    then some (c - 48)
    else if leb 97 c && leb c 102
    then some (c - 87)
    else if leb 65 c && leb c 70
    then some (c - 55)
    else none

pub data HexError : Type 0 where
  wrong_length not_hex : HexError

abbrev pub sum_of : Option ℕ → Option ℕ → Outcome HexError ℕ
sum_of (some x) (some y) = ok (16 * x + y)
sum_of _ _ = err HexError.not_hex

-- `u8::from_str_radix` on two bytes of text: a plus sign may stand in front of the digits.
abbrev pub radix_16 : ℕ → ℕ → Outcome HexError ℕ
radix_16 a b = if a == 43 then sum_of (some 0) (value_of b) else sum_of (value_of a) (value_of b)

-- Whether a slice of the text may begin with these bytes, or end before them.
abbrev pub is_boundary : Bytes → Bool
is_boundary [] = true
is_boundary (b ∷ rest) = not (leb 128 b && ltb b 192)

-- The loop of `from_hex` over the pairs of bytes; a slice inside a character panics.
unfoldable pub read_pairs : Bytes → Outcome HexError Bytes
read_pairs [] = ok []
read_pairs (a ∷ []) = panic
read_pairs (a ∷ b ∷ rest) =
    let later = read_pairs rest in
    if is_boundary (a ∷ []) && is_boundary rest
    then (radix_16 a b >>= λ byte. later >>= λ bytes. ok (byte ∷ bytes))
    else panic

-- `Topic::from_hex`
unfoldable pub from_hex : Bytes → Outcome HexError Topic
unfolding read_pairs
from_hex s = do
  ensure (length s == 64) HexError.wrong_length
  bytes ← read_pairs s
  ok (record { bytes = bytes })

value_of-digit : (n : ℕ) → n < 16 → value_of (digit n) ≡ some n
value_of-digit n h = ground arith

digit_plain : (n : ℕ) → n < 16 → (digit n == 43 ≡ false) × (is_boundary (digit n ∷ []) ≡ true)
digit_plain n h = (ground arith, ground arith)

radix_16-digit : (b : ℕ) → b < 256 → radix_16 (digit (b / 16)) (digit (b % 16)) ≡ ok b
radix_16-digit b h =
    rw
      (
        (digit_plain (b / 16) (omega arith)).0,
        value_of-digit (b / 16) (omega arith),
        value_of-digit (b % 16) (omega arith),
      )
      (ap ok (omega arith))

hex-is_boundary : (bytes : Bytes) → All (λ b. b < 256) bytes → is_boundary (hex bytes) ≡ true
unfolding hex
hex-is_boundary [] h = refl
hex-is_boundary (b ∷ rest) h = (digit_plain (b / 16) (omega (arith, h.0))).1

length-hex : (bytes : Bytes) → length (hex bytes) ≡ 2 * length bytes
unfolding hex
length-hex [] = refl
length-hex (b ∷ rest) = omega (arith, length-hex rest)

read_pairs-hex : (bytes : Bytes) → All (λ b. b < 256) bytes → read_pairs (hex bytes) ≡ ok bytes
unfolding read_pairs hex
read_pairs-hex [] h = refl
read_pairs-hex (b ∷ rest) (h, hs) =
    rw
      (
        (digit_plain (b / 16) (omega arith)).1,
        hex-is_boundary rest hs,
        radix_16-digit b h,
        read_pairs-hex rest hs,
      )
      refl

-- The text of a topic, all of its 64 hex digits, is read back as the topic. The topic has 32 bytes.
pub from_hex-hex :
    (t : Topic) → IsTopic t → All (λ b. b < 256) t.bytes → from_hex (hex t.bytes) ≡ ok t
unfolding from_hex
from_hex-hex t h bytes =
    let counted : (length (hex t.bytes) == 64) ≡ true = ground (arith, length-hex t.bytes, h) in
    rw (counted, read_pairs-hex t.bytes bytes) refl
