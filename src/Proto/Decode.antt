-- ===== src/Proto/Decode.antt =====
-- src/proto.rs: why a frame body is refused, the readers that the decoders share, and the frame
-- header. `body : &mut Bytes` becomes an argument, and the rest of it is returned with the result.
pub mod Cases
use keep_talking_sfu.Prelude.{
  ℕ, ◌+◌, ◌%◌, ◌^◌, ◌≤◌, ◌≡◌, refl, not, Option, none, some, List, [], ◌∷◌, ◌++◌, length, take,
  drop, ltb, if◌then◌else◌, arith, length-append, take-append, drop-append,
}
use keep_talking_sfu.Prelude.Outcome.{Outcome, ok, err, panic, ensure, ◌>>=◌, ◌>>◌}
use keep_talking_sfu.Prelude.Wire.{
  Bytes, put_u16, put_u32, from_be16, from_be32, from_be16-put_u16, from_be32-put_u32,
  length-put_u32,
}
use keep_talking_sfu.Proto.Ids.{EndpointIds}
use keep_talking_sfu.Proto.Topic.{Topic, IsTopic}

pub data DecodeError : Type 0 where
  truncated_topic truncated_endpoint_id : DecodeError
  invalid_endpoint_id : Bytes → DecodeError
  truncated_snapshot_header truncated_snapshot_blob_length truncated_snapshot_blob : DecodeError
  unknown_client_frame unknown_server_frame : ℕ → DecodeError
  trailing_client_bytes trailing_server_bytes : ℕ → DecodeError
  not_a_lane_frame : DecodeError

abbrev pub Decoded : Type 0 → Type 0
Decoded A = Outcome DecodeError A

-- `Buf::get_u8` and its like panic on a buffer that is too short.
unfoldable pub get_u8 : Bytes → Decoded (ℕ × Bytes)
get_u8 (a ∷ body) = ok (a, body)
get_u8 _ = panic

unfoldable pub get_u16 : Bytes → Decoded (ℕ × Bytes)
get_u16 (a ∷ b ∷ body) = ok (from_be16 a b, body)
get_u16 _ = panic

unfoldable pub get_u32 : Bytes → Decoded (ℕ × Bytes)
get_u32 (a ∷ b ∷ c ∷ d ∷ body) = ok (from_be32 a b c d, body)
get_u32 _ = panic

-- `Bytes::split_to`
unfoldable pub split_to : ℕ → Bytes → Decoded (Bytes × Bytes)
split_to n body = if ltb (length body) n then panic else ok (take n body, drop n body)

unfoldable pub take_topic : Bytes → Decoded (Topic × Bytes)
unfolding split_to
take_topic body = do
  ensure (not (ltb (length body) 32)) truncated_topic
  (bytes, body) ← split_to 32 body
  ok (record { bytes = bytes }, body)

unfoldable pub take_id :
    {EndpointId : Type 0} ⦃ids : EndpointIds EndpointId⦄ → Bytes → Decoded (EndpointId × Bytes)
unfolding split_to
take_id ⦃ids⦄ body = do
  ensure (not (ltb (length body) 32)) truncated_endpoint_id
  (bytes, body) ← split_to 32 body
  elim (ids.from_bytes bytes) [
    | none ↦ err (invalid_endpoint_id (ids.refusal bytes))
    | some id ↦ ok (id, body)
  ]

-- The 5-byte header, `length ‖ tag`; the length is cast to 32 bits.
unfoldable pub frame_header : ℕ → ℕ → Bytes
frame_header tag body_len = put_u32 (1 + body_len % 2 ^ 32) ++ tag ∷ []

unfoldable pub encode : ℕ → ℕ → Bytes → Bytes
encode tag body_len body = put_u32 (1 + body_len % 2 ^ 32) ++ tag ∷ body

pub take_topic-append :
    (t : Topic) (rest : Bytes) → IsTopic t → take_topic (t.bytes ++ rest) ≡ ok (t, rest)
unfolding take_topic
take_topic-append t rest h = ground (
  arith,
  length-append t.bytes rest,
  take-append 32 t.bytes rest h,
  drop-append 32 t.bytes rest h,
)

module _ {EndpointId : Type 0} ⦃ids : EndpointIds EndpointId⦄ where
  pub take_id-append :
      (id : EndpointId) (rest : Bytes) → take_id (ids.as_bytes id ++ rest) ≡ ok (id, rest)
  unfolding take_id
  take_id-append id rest =
      let h = ids.length-as_bytes id in
      ground (
        arith,
        length-append (ids.as_bytes id) rest,
        take-append 32 (ids.as_bytes id) rest h,
        drop-append 32 (ids.as_bytes id) rest h,
        ids.from_bytes-as_bytes id,
      )

pub get_u16-put_u16 : (n : ℕ) (rest : Bytes) → get_u16 (put_u16 n ++ rest) ≡ ok (n % 2 ^ 16, rest)
unfolding get_u16 put_u16
get_u16-put_u16 n rest = ground (arith, from_be16-put_u16 n)

pub get_u32-put_u32 : (n : ℕ) (rest : Bytes) → get_u32 (put_u32 n ++ rest) ≡ ok (n % 2 ^ 32, rest)
unfolding get_u32 put_u32
get_u32-put_u32 n rest = ground (arith, from_be32-put_u32 n)

pub split_to-append :
    (n : ℕ) (b rest : Bytes) → length b ≡ n → split_to n (b ++ rest) ≡ ok (b, rest)
unfolding split_to
split_to-append n b rest h =
    ground (arith, length-append b rest, take-append n b rest h, drop-append n b rest h)
