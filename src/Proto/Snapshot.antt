-- ===== src/Proto/Snapshot.antt =====
-- src/proto.rs, `encode_snapshot` and `snapshot_wire_len`: a room's snapshot cut into chunks.
-- A slice `members[start..]` is the list of the members that are left.
pub mod Chunks
use keep_talking_sfu.Prelude.{
  ℕ, zero, suc, ◌+◌, ◌-◌, ◌*◌, ◌/◌, ◌^◌, min, max, Bool, true, false, not, List, [], ◌∷◌, length,
  ltb, ◌==◌, ◌&&◌, if◌then◌else◌,
}
use keep_talking_sfu.Prelude.Wire.{Bytes}
use keep_talking_sfu.Proto.Ids.{EndpointIds}
use keep_talking_sfu.Proto.Limits.{snapshot_chunk_bytes}
use keep_talking_sfu.Proto.Topic.{Topic}
use keep_talking_sfu.Proto.ServerFrame.{
  Member, snapshot_entry_len, entries_len, snapshot_head_len, encode_snapshot_chunk,
}

-- `max_entries.clamp(1, u16::MAX)`
abbrev pub clamp_entries : ℕ → ℕ
clamp_entries n = max 1 (min n (2 ^ 16 - 1))

module _ {EndpointId : Type 0} where
  abbrev pub is_nil : List (Member EndpointId) → Bool
  is_nil ms = length ms == 0

  -- The inner loop: `count` is `end - start` and `body` the bytes so far. Returns the chunk and the
  -- members that are left.
  unfoldable pub take_chunk :
      ℕ → ℕ → ℕ → ℕ → List (Member EndpointId) → List (Member EndpointId) × List (Member EndpointId)
  take_chunk max_entries max_body count body [] = ([], [])
  take_chunk max_entries max_body count body (m ∷ ms) =
      let entry = snapshot_entry_len m in
      let (chunk, rest) = take_chunk max_entries max_body (count + 1) (body + entry) ms in
      if ltb count max_entries && not (ltb 0 count && ltb max_body (body + entry))
      then (m ∷ chunk, rest)
      else ([], m ∷ ms)

  -- The outer loop on fuel, before encoding: whether MORE is set, and the members of each chunk.
  unfoldable pub snapshot_parts :
      ℕ → ℕ → ℕ → List (Member EndpointId) → List (Bool × List (Member EndpointId))
  snapshot_parts zero max_entries max_body ms = []
  snapshot_parts (suc fuel) max_entries max_body ms =
      let (chunk, rest) = take_chunk max_entries max_body 0 snapshot_head_len ms in
      let more = not (is_nil rest) in
      let others = snapshot_parts fuel max_entries max_body rest in
      (more, chunk) ∷ (if more then others else [])

  unfoldable pub snapshot_wire_len : List (Member EndpointId) → ℕ → ℕ
  snapshot_wire_len ms max_entries =
      let entries = entries_len ms in
      let chunks = max (length ms / max max_entries 1) (entries / snapshot_chunk_bytes) + 1 in
      entries + chunks * (5 + snapshot_head_len)

module _ {EndpointId : Type 0} ⦃ids : EndpointIds EndpointId⦄ where
  unfoldable pub encode_parts : Topic → List (Bool × List (Member EndpointId)) → List Bytes
  encode_parts t [] = []
  encode_parts t ((more, chunk) ∷ parts) = encode_snapshot_chunk t more chunk ∷ encode_parts t parts

  -- Each round takes a member at least while some are left, so `members.len() + 1` rounds do.
  unfoldable pub encode_snapshot : Topic → List (Member EndpointId) → ℕ → ℕ → List Bytes
  encode_snapshot t ms max_entries max_body =
      encode_parts t (snapshot_parts (suc (length ms)) (clamp_entries max_entries) max_body ms)
