-- ===== src/EndToEnd/Session.antt =====
-- From the session queue of a connection to the frames that its client hands out.
use keep_talking_sfu.Prelude.{
  ℕ, suc, ◌+◌, ◌*◌, ◌^◌, ◌<◌, ◌≤◌, ◌≡◌, ◌∙◌, refl, sym, ap, Bool, false, List, [], ◌∷◌, ◌++◌, All,
  length, flatten, min, inl, inr, arith, length-append, take_all,
}
use keep_talking_sfu.Prelude.Wire.{put_u16, length-put_u16}
use keep_talking_sfu.Proto.Stream.RoundTrip.{length-encode}
use keep_talking_sfu.Proto.ServerFrame.RoundTrip.{
  more_flag, length-put_members, encode_snapshot_chunk-eq,
}
use keep_talking_sfu.Proto.ServerFrame.{put_members}
use keep_talking_sfu.Proto.Ids.{EndpointIds}
use keep_talking_sfu.Proto.Limits.{max_frame_len, max_announce_len, max_members_per_topic}
use keep_talking_sfu.Proto.Topic.{Topic, IsTopic}
use keep_talking_sfu.Proto.Snapshot.{clamp_entries, snapshot_parts, encode_parts}
use keep_talking_sfu.Proto.Snapshot.Chunks.{union, Within, encode_snapshot-parts}
use keep_talking_sfu.Proto.ServerFrame.{
  Member, ServerFrame, snapshot, joined, left, presence, deliver, error, entries_len,
  snapshot_head_len, encode, encode_snapshot_chunk,
}
use keep_talking_sfu.Proto.ServerFrame.RoundTrip.{IsMember}
use keep_talking_sfu.Client.Frames.Merge.{chunk_frames}
use keep_talking_sfu.Client.Frames.Reading.{encode_all, Fits}
use keep_talking_sfu.Server.Limits.{Limits}
use keep_talking_sfu.Server.Writers.Sessions.{item_chunks}
use keep_talking_sfu.Server.Outbound.{SessionItem}
use keep_talking_sfu.Server.Outbound

module _ {EndpointId : Type 0} ⦃ids : EndpointIds EndpointId⦄ where
  abbrev pub frame_item : ServerFrame EndpointId → SessionItem EndpointId
  frame_item f = Outbound.frame (encode f)

  -- The item that is queued for an event.
  abbrev pub item_of : ServerFrame EndpointId → SessionItem EndpointId
  item_of (snapshot t more ms) = Outbound.snapshot t ms
  item_of (joined t id) = frame_item (joined t id)
  item_of (left t id) = frame_item (left t id)
  item_of (presence t id blob) = frame_item (presence t id blob)
  item_of (deliver t payload) = frame_item (deliver t payload)
  item_of (error t reason) = frame_item (error t reason)

  abbrev pub HasSmallBlob : Member EndpointId → Type 0
  HasSmallBlob m = length m.blob ≤ max_announce_len

  -- The events of a session: a whole snapshot of a room, or a frame that fits and is no DELIVER.
  abbrev pub IsEvent : ServerFrame EndpointId → Type 0
  IsEvent (snapshot t more ms) =
      IsTopic t × (more ≡ false) × (length ms ≤ 2 * max_members_per_topic) × All HasSmallBlob ms
  IsEvent (deliver t payload) = ⊥
  IsEvent (joined t id) = Fits (ServerFrame.joined t id)
  IsEvent (left t id) = Fits (ServerFrame.left t id)
  IsEvent (presence t id blob) = Fits (ServerFrame.presence t id blob)
  IsEvent (error t reason) = Fits {EndpointId = EndpointId} (error t reason)

  length-encode_snapshot_chunk :
      (t : Topic) (more : Bool) (ms : List (Member EndpointId))
      → IsTopic t
      → length (encode_snapshot_chunk t more ms) ≡ 5 + snapshot_head_len + entries_len ms
  length-encode_snapshot_chunk t more ms h =
      rw (encode_snapshot_chunk-eq t more ms h, length-encode)
        (omega (
          arith,
          length-append t.bytes (more_flag more ∷ (put_u16 (length ms) ++ put_members ms)),
          length-append (put_u16 (length ms)) (put_members ms),
          length-put_u16 (length ms),
          length-put_members ms,
          h,
        ))

  small-IsMember : (ms : List (Member EndpointId)) → All HasSmallBlob ms → All IsMember ms
  small-IsMember [] h = tt
  small-IsMember (m ∷ ms) h = (omega (arith, h.0), small-IsMember ms h.1)

  All-front :
      (P : Member EndpointId → Type 0) (xs ys : List (Member EndpointId))
      → All P (xs ++ ys)
      → All P xs × All P ys
  All-front P [] ys h = (tt, h)
  All-front P (x ∷ xs) ys h = let (a, b) = All-front P xs ys h.1 in ((h.0, a), b)

  one_entry :
      (ms : List (Member EndpointId))
      → length ms ≤ 1
      → All HasSmallBlob ms
      → entries_len ms ≤ 36 + max_announce_len
  unfolding entries_len
  one_entry [] few h = omega arith
  one_entry (m ∷ []) few h = omega (arith, h.0)
  one_entry (m ∷ n ∷ ms) few h = absurd (omega arith)

  encode_few :
      (t : Topic) (more : Bool) (ms : List (Member EndpointId))
      → length ms < 2 ^ 16
      → encode (snapshot t more ms) ≡ encode_snapshot_chunk t more ms
  unfolding encode
  encode_few t more ms few = rw (take_all (min (length ms) 65535) ms (omega arith)) refl

  chunk-Fits :
      (t : Topic) (e b : ℕ) (more : Bool) (ms : List (Member EndpointId))
      → IsTopic t
      → e < 2 ^ 16
      → b < max_frame_len
      → All HasSmallBlob ms
      → Within e b (more, ms)
      → Fits (snapshot t more ms)
  chunk-Fits t e b more ms h entries body blobs (few, size) =
      let bytes = ap length (encode_few t more ms (omega (arith, few))) in
      let counted = length-encode_snapshot_chunk t more ms h in
      (
        (h, omega (arith, few), small-IsMember ms blobs),
        elim size [
          | inl one ↦ omega (arith, one_entry ms one blobs, bytes, counted)
          | inr within ↦ omega (arith, within, bytes, counted)
        ],
      )

  parts-Fits :
      (t : Topic) (e b : ℕ) (parts : List (Bool × List (Member EndpointId)))
      → IsTopic t
      → e < 2 ^ 16
      → b < max_frame_len
      → All HasSmallBlob (union parts)
      → All (Within e b) parts
      → All Fits (chunk_frames t parts)
        × (flatten (encode_parts t parts) ≡ encode_all (chunk_frames t parts))
  unfolding encode_parts
  parts-Fits t e b [] h entries body blobs within = (tt, refl)
  parts-Fits t e b ((more, chunk) ∷ parts) h entries body blobs (one, rest) =
      let (now, later) = All-front HasSmallBlob chunk (union parts) blobs in
      let (fits, bytes) = parts-Fits t e b parts h entries body later rest in
      (
        (chunk-Fits t e b more chunk h entries body now one, fits),
        ap (λ x. x ++ flatten (encode_parts t parts))
              (sym (encode_few t more chunk (omega (arith, one.0))))
            ∙ ap (λ x. encode (ServerFrame.snapshot t more chunk) ++ x) bytes,
      )

module _ {EndpointId F : Type 0} ⦃ids : EndpointIds EndpointId⦄ (limits : Limits F) where
  abbrev pub parts_of : List (Member EndpointId) → List (Bool × List (Member EndpointId))
  parts_of ms =
      snapshot_parts (suc (length ms)) (clamp_entries limits.snapshot_chunk_entries)
        limits.snapshot_chunk_bytes ms

  -- The frames that go over the wire for an event.
  abbrev pub frames_of : ServerFrame EndpointId → List (ServerFrame EndpointId)
  frames_of (snapshot t more ms) = chunk_frames t (parts_of ms)
  frames_of (joined t id) = joined t id ∷ []
  frames_of (left t id) = left t id ∷ []
  frames_of (presence t id blob) = presence t id blob ∷ []
  frames_of (deliver t payload) = deliver t payload ∷ []
  frames_of (error t reason) = error t reason ∷ []

  abbrev pub all_frames : List (ServerFrame EndpointId) → List (ServerFrame EndpointId)
  all_frames [] = []
  all_frames (f ∷ fs) = frames_of f ++ all_frames fs

  -- The bytes of an event's item are its frames, each of which fits.
  pub frames_of-item_chunks :
      (f : ServerFrame EndpointId)
      → limits.snapshot_chunk_bytes < max_frame_len
      → IsEvent f
      → All Fits (frames_of f)
        × (flatten (item_chunks limits (item_of f)) ≡ encode_all (frames_of f))
  unfolding item_chunks
  frames_of-item_chunks (snapshot t more ms) body (h, last, few, blobs) =
      let (bytes, all, more, within) =
        encode_snapshot-parts t ms limits.snapshot_chunk_entries limits.snapshot_chunk_bytes in
      let (fits, same) =
        parts-Fits t (clamp_entries limits.snapshot_chunk_entries) limits.snapshot_chunk_bytes
          (parts_of ms) h (omega arith) body (rw all blobs) within in
      (fits, ap flatten bytes ∙ same)
  frames_of-item_chunks (joined t id) body h = ((h, tt), refl)
  frames_of-item_chunks (left t id) body h = ((h, tt), refl)
  frames_of-item_chunks (presence t id blob) body h = ((h, tt), refl)
  frames_of-item_chunks (deliver t payload) body h = absurd h
  frames_of-item_chunks (error t reason) body h = ((h, tt), refl)
