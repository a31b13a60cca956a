-- ===== src/Proto/Stream.antt =====
-- src/proto.rs, `read_frame` and `read_lane_byte`: frames read from a stream of bytes that arrive
-- in pieces of any size. What the peer sends is the list of the pieces and how the stream ends.
pub mod Reassembly
pub mod RoundTrip
pub mod Progress
use keep_talking_sfu.Prelude.{
  ℕ, zero, suc, ◌+◌, ◌-◌, ◌*◌, min, max, Bool, true, false, List, [], ◌∷◌, ◌++◌, length, take, drop,
  flatten, ltb, leb, ◌==◌, ◌&&◌, not, if◌then◌else◌,
}
use keep_talking_sfu.Prelude.Wire.{Bytes, from_be32}
use keep_talking_sfu.Proto.Limits.{max_frame_len}

-- How the stream ends behind its last byte: by the peer's FIN, or with an error.
pub data End : Type 0 where
  finished failed : End

pub record Stream : Type 0 where
  pub pieces : List Bytes
  pub ending : End

-- The bytes that are still to be read.
abbrev pub content : Stream → Bytes
content s = flatten s.pieces

-- One read into `room` bytes: it takes bytes of one piece, and none only at the end.
unfoldable pub read_pieces : ℕ → List Bytes → Bytes × List Bytes
read_pieces room [] = ([], [])
read_pieces room ([] ∷ ps) = read_pieces room ps
read_pieces room ((b ∷ bs) ∷ ps) = (take room (b ∷ bs), drop room (b ∷ bs) ∷ ps)

pub data Read (A : Type 0) : Type 0 where
  got : A → Stream → Read A
  -- The stream ended before the bytes that were wanted.
  ended : Read A
  -- The stream broke.
  broken : Read A
  -- A length prefix out of range, `FrameLengthError`.
  bad_length : ℕ → Read A
  -- The stream ended inside a frame body.
  truncated : Read A
  -- No outcome of the source: the loop of the model ran out of fuel, or the empty buffer after it
  -- has no tag.
  stuck : Read A

-- A byte in front of what was read behind it.
abbrev pub before : ℕ → Read Bytes → Read Bytes
before b (got bs s) = got (b ∷ bs) s
before b ended = ended
before b broken = broken
before b (bad_length n) = bad_length n
before b truncated = truncated
before b stuck = stuck

-- `read_exact`, a byte at a time.
unfoldable pub read_exact : ℕ → Stream → Read Bytes
read_exact zero s = got [] s
read_exact (suc n) s =
    let (chunk, rest) = read_pieces 1 s.pieces in
    elim chunk [
      | [] ↦ elim s.ending [ finished ↦ ended | failed ↦ broken ]
      | b ∷ _ ↦ before b (read_exact n (record s { pieces = rest }))
    ]

-- Bytes read per step while filling a frame body.
abbrev pub read_step : ℕ
read_step = 64 * 1024

-- The capacity after the buffer of `filled` bytes was found full.
abbrev pub grown : ℕ → ℕ → ℕ
grown len capacity = min (max (capacity * 2) read_step) len

unfoldable pub fill_capacity : ℕ → ℕ → ℕ → ℕ
fill_capacity len filled capacity = if filled == capacity then grown len capacity else capacity

-- `while buf.len() < len`, on fuel.
unfoldable pub fill : ℕ → ℕ → ℕ → Bytes → Stream → Read Bytes
fill zero len capacity buf s = stuck
fill (suc fuel) len capacity buf s =
    let capacity' = fill_capacity len (length buf) capacity in
    let room = min (len - length buf) (capacity' - length buf) in
    let (chunk, rest) = read_pieces room s.pieces in
    let more = fill fuel len capacity' (buf ++ chunk) (record s { pieces = rest }) in
    let at_end : Read Bytes = elim s.ending [ finished ↦ truncated | failed ↦ broken ] in
    if ltb (length buf) len then if ltb 0 (length chunk) then more else at_end else got buf s

-- `buf.get_u8()` on the whole frame.
abbrev pub with_tag : Read Bytes → Read (ℕ × Bytes)
with_tag (got [] s) = stuck
with_tag (got (tag ∷ body) s) = got (tag, body) s
with_tag ended = ended
with_tag broken = broken
with_tag (bad_length n) = bad_length n
with_tag truncated = truncated
with_tag stuck = stuck

-- Each round reads a byte at least, so `len` rounds and the last test are enough.
unfoldable pub read_body : ℕ → Stream → Read (ℕ × Bytes)
read_body len s = with_tag (fill (suc len) len (min len read_step) [] s)

abbrev pub be32_of : Bytes → ℕ
be32_of (a ∷ b ∷ c ∷ d ∷ _) = from_be32 a b c d
be32_of _ = 0

-- What follows the length prefix.
abbrev pub after_head : Read Bytes → Read (ℕ × Bytes)
after_head (got head s) =
    let len = be32_of head in
    if leb 1 len && leb len max_frame_len then read_body len s else bad_length len
after_head ended = ended
after_head broken = broken
after_head (bad_length n) = bad_length n
after_head truncated = truncated
after_head stuck = stuck

-- `ended` stands for `Ok(None)`; the tag and the body come with `got`.
unfoldable pub read_frame : Stream → Read (ℕ × Bytes)
read_frame s = after_head (read_exact 4 s)

-- The only byte of a buffer of one.
abbrev pub first_byte : Read Bytes → Read ℕ
first_byte (got [] s) = stuck
first_byte (got (b ∷ _) s) = got b s
first_byte ended = ended
first_byte broken = broken
first_byte (bad_length n) = bad_length n
first_byte truncated = truncated
first_byte stuck = stuck

-- `ended` stands for `Ok(None)`.
unfoldable pub read_lane_byte : Stream → Read ℕ
read_lane_byte s = first_byte (read_exact 1 s)
