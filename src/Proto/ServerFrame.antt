-- ===== src/Proto/ServerFrame.antt =====
-- src/proto.rs, `ServerFrame` and `Member`: the frames that the SFU sends to a client.
pub mod RoundTrip
pub mod Total
use keep_talking_sfu.Prelude.{
  ℕ, zero, suc, ◌+◌, ◌-◌, ◌%◌, ◌^◌, ◌≢◌, Bool, true, false, not, Option, none, some, List, [], ◌∷◌,
  ◌++◌, length, take, min, ltb, ◌==◌, if◌then◌else◌,
}
use keep_talking_sfu.Prelude.Outcome.{Outcome, ok, err, panic, ensure, ◌>>=◌, ◌>>◌}
use keep_talking_sfu.Prelude.Wire.{Bytes, put_u16, put_u32}
use keep_talking_sfu.Prelude.Utf8.{from_utf8_lossy}
use keep_talking_sfu.Proto.Ids.{EndpointIds}
use keep_talking_sfu.Proto.Tag
use keep_talking_sfu.Proto.Limits.{snapshot_more}
use keep_talking_sfu.Proto.Topic.{Topic, zero_topic, is_zero}
use keep_talking_sfu.Proto.Decode.{
  Decoded, unknown_server_frame, trailing_server_bytes, truncated_snapshot_header,
  truncated_snapshot_blob_length, truncated_snapshot_blob, take_topic, take_id, get_u8, get_u16,
  get_u32, split_to,
}
use keep_talking_sfu.Proto.Decode

pub record Member (EndpointId : Type 0) : Type 0 where
  pub id : EndpointId
  pub blob : Bytes

-- A reason is the bytes of a `String`.
pub data ServerFrame (EndpointId : Type 0) : Type 0 where
  snapshot : Topic → Bool → List (Member EndpointId) → ServerFrame EndpointId
  joined : Topic → EndpointId → ServerFrame EndpointId
  left : Topic → EndpointId → ServerFrame EndpointId
  presence : Topic → EndpointId → Bytes → ServerFrame EndpointId
  deliver : Topic → Bytes → ServerFrame EndpointId
  error : Option Topic → Bytes → ServerFrame EndpointId

module _ {EndpointId : Type 0} where
  unfoldable pub snapshot_entry_len : Member EndpointId → ℕ
  snapshot_entry_len m = 32 + 4 + length m.blob

  -- `.map(snapshot_entry_len).sum()`
  unfoldable pub entries_len : List (Member EndpointId) → ℕ
  unfolding snapshot_entry_len
  entries_len [] = 0
  entries_len (m ∷ ms) = snapshot_entry_len m + entries_len ms

abbrev pub snapshot_head_len : ℕ
snapshot_head_len = 32 + 1 + 2

abbrev pub or_zero_topic : Option Topic → Topic
or_zero_topic none = zero_topic
or_zero_topic (some t) = t

-- `flags & SNAPSHOT_MORE != 0`
abbrev pub has_more : ℕ → Bool
has_more flags = not (flags % 2 == 0)

unfoldable pub no_trailing :
    {EndpointId : Type 0} → ℕ → ServerFrame EndpointId → Bytes → Decoded (ServerFrame EndpointId)
no_trailing tag frame body = do ensure (length body == 0) (trailing_server_bytes tag); ok frame

module _ {EndpointId : Type 0} ⦃ids : EndpointIds EndpointId⦄ where
  -- The entries of a snapshot chunk: `id(32) ‖ u32 len ‖ blob` each.
  unfoldable pub put_members : List (Member EndpointId) → Bytes
  put_members [] = []
  put_members (m ∷ ms) =
      ids.as_bytes m.id ++ (put_u32 (length m.blob) ++ (m.blob ++ put_members ms))

  unfoldable pub encode_snapshot_chunk : Topic → Bool → List (Member EndpointId) → Bytes
  unfolding put_members entries_len
  encode_snapshot_chunk t more members =
      Decode.encode Tag.snapshot (snapshot_head_len + entries_len members) (
        t.bytes
        ++ ((if more then snapshot_more else 0)
            ∷ (put_u16 (length members) ++ put_members members)))

  unfoldable pub encode : ServerFrame EndpointId → Bytes
  unfolding encode_snapshot_chunk
  encode (snapshot t more members) =
      encode_snapshot_chunk t more (take (min (length members) (2 ^ 16 - 1)) members)
  encode (joined t id) = Decode.encode Tag.joined 64 (t.bytes ++ ids.as_bytes id)
  encode (left t id) = Decode.encode Tag.left 64 (t.bytes ++ ids.as_bytes id)
  encode (presence t id blob) =
      Decode.encode Tag.presence (64 + length blob) (t.bytes ++ (ids.as_bytes id ++ blob))
  encode (deliver t payload) = Decode.encode Tag.deliver (32 + length payload) (t.bytes ++ payload)
  encode (error t reason) =
      Decode.encode Tag.error (32 + length reason) ((or_zero_topic t).bytes ++ reason)

  -- One round of the loop over a snapshot's entries.
  unfoldable pub take_member : Bytes → Decoded (Member EndpointId × Bytes)
  take_member body = do
    (id, body) ← take_id body
    ensure (not (ltb (length body) 4)) truncated_snapshot_blob_length
    (len, body) ← get_u32 body
    ensure (not (ltb (length body) len)) truncated_snapshot_blob
    (blob, body) ← split_to len body
    ok (record { id = id; blob = blob }, body)

  -- `for _ in 0..count`
  unfoldable pub take_members : ℕ → Bytes → Decoded (List (Member EndpointId) × Bytes)
  take_members zero body = ok ([], body)
  take_members (suc count) body = do
    (member, body) ← take_member body
    (members, body) ← take_members count body
    ok (member ∷ members, body)

  unfoldable pub decode : ℕ → Bytes → Decoded (ServerFrame EndpointId)
  unfolding no_trailing
  decode tag body =
      if tag == Tag.snapshot
      then (do
        (t, body) ← take_topic body
        ensure (not (ltb (length body) 3)) truncated_snapshot_header
        (flags, body) ← get_u8 body
        (count, body) ← get_u16 body
        (members, body) ← take_members count body
        no_trailing tag (snapshot t (has_more flags) members) body)
      else if tag == Tag.joined
      then (do
        (t, body) ← take_topic body
        (id, body) ← take_id body
        no_trailing tag (joined t id) body)
      else if tag == Tag.left
      then (do
        (t, body) ← take_topic body
        (id, body) ← take_id body
        no_trailing tag (left t id) body)
      else if tag == Tag.presence
      then (do (t, body) ← take_topic body; (id, body) ← take_id body; ok (presence t id body))
      else if tag == Tag.deliver
      then (do (t, body) ← take_topic body; ok (deliver t body))
      else if tag == Tag.error
      then (do
        (t, body) ← take_topic body
        ok (error (if is_zero t then none else some t) (from_utf8_lossy body)))
      else err (unknown_server_frame tag)
