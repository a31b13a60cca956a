-- ===== src/Proto/ServerFrame/RoundTrip.antt =====
-- Server frames: what `encode` writes is a header and a body that `decode` reads back.
use keep_talking_sfu.Prelude.{
  ℕ, ◌^◌, ◌<◌, ◌≡◌, refl, Bool, true, false, Option, none, some, List, [], ◌∷◌, ◌++◌, All, length,
  take_all, min, arith, append-nil, append_assoc, length-append,
}
use keep_talking_sfu.Prelude.Outcome.{ok}
use keep_talking_sfu.Prelude.Wire.{Bytes, put_u16, put_u32, length-put_u16, length-put_u32}
use keep_talking_sfu.Prelude.Utf8.{IsString, from_utf8_lossy-IsString}
use keep_talking_sfu.Proto.Ids.{EndpointIds}
use keep_talking_sfu.Proto.Tag
use keep_talking_sfu.Proto.Limits.{snapshot_more}
use keep_talking_sfu.Proto.Topic.{Topic, IsTopic, zero_topic, is_zero, zero_topic-is_zero}
use keep_talking_sfu.Proto.Decode.{
  get_u8, get_u32-put_u32, get_u16-put_u16, split_to-append, take_topic-append, take_id-append,
}
use keep_talking_sfu.Proto.Decode
use keep_talking_sfu.Proto.ServerFrame.{
  Member, ServerFrame, snapshot, joined, left, presence, deliver, error, entries_len, or_zero_topic,
  put_members, encode_snapshot_chunk, encode, take_member, take_members, decode,
}

abbrev pub more_flag : Bool → ℕ
more_flag true = snapshot_more
more_flag false = 0

-- The zero topic of an ERROR stands for no topic.
abbrev pub IsNotZero : Option Topic → Type 0
IsNotZero none = Unit {0}
IsNotZero (some t) = (is_zero t ≡ false) × IsTopic t

module _ {EndpointId : Type 0} where
  -- The blob's length fits the 32 bits that an entry has for it.
  abbrev pub IsMember : Member EndpointId → Type 0
  IsMember m = length m.blob < 2 ^ 32

  -- The frames whose parts fit their fields on the wire.
  abbrev pub IsFrame : ServerFrame EndpointId → Type 0
  IsFrame (snapshot t more members) = IsTopic t × (length members < 2 ^ 16) × All IsMember members
  IsFrame (joined t id) = IsTopic t
  IsFrame (left t id) = IsTopic t
  IsFrame (presence t id blob) = IsTopic t
  IsFrame (deliver t payload) = IsTopic t
  IsFrame (error t reason) = IsNotZero t × IsString reason

  abbrev pub tag_of : ServerFrame EndpointId → ℕ
  tag_of (snapshot t more members) = Tag.snapshot
  tag_of (joined t id) = Tag.joined
  tag_of (left t id) = Tag.left
  tag_of (presence t id blob) = Tag.presence
  tag_of (deliver t payload) = Tag.deliver
  tag_of (error t reason) = Tag.error

module _ {EndpointId : Type 0} ⦃ids : EndpointIds EndpointId⦄ where
  abbrev pub body_of : ServerFrame EndpointId → Bytes
  body_of (snapshot t more members) =
      t.bytes ++ (more_flag more ∷ (put_u16 (length members) ++ put_members members))
  body_of (joined t id) = t.bytes ++ ids.as_bytes id
  body_of (left t id) = t.bytes ++ ids.as_bytes id
  body_of (presence t id blob) = t.bytes ++ (ids.as_bytes id ++ blob)
  body_of (deliver t payload) = t.bytes ++ payload
  body_of (error t reason) = (or_zero_topic t).bytes ++ reason

  pub length-put_members :
      (ms : List (Member EndpointId)) → length (put_members ms) ≡ entries_len ms
  unfolding put_members entries_len
  length-put_members [] = refl
  length-put_members (m ∷ ms) = omega (
    arith,
    length-append (ids.as_bytes m.id) (put_u32 (length m.blob) ++ (m.blob ++ put_members ms)),
    length-append (put_u32 (length m.blob)) (m.blob ++ put_members ms),
    length-append m.blob (put_members ms),
    length-put_u32 (length m.blob),
    ids.length-as_bytes m.id,
    length-put_members ms,
  )

  take_member-append :
      (m : Member EndpointId) (rest : Bytes)
      → IsMember m
      → take_member (ids.as_bytes m.id ++ (put_u32 (length m.blob) ++ (m.blob ++ rest)))
        ≡ ok (m, rest)
  unfolding take_member
  take_member-append m rest h = ground (
    arith,
    take_id-append m.id (put_u32 (length m.blob) ++ (m.blob ++ rest)),
    length-append (put_u32 (length m.blob)) (m.blob ++ rest),
    length-put_u32 (length m.blob),
    get_u32-put_u32 (length m.blob) (m.blob ++ rest),
    length-append m.blob rest,
    split_to-append (length m.blob) m.blob rest refl,
  )

  pub take_members-put_members :
      (ms : List (Member EndpointId)) (rest : Bytes)
      → All IsMember ms
      → take_members (length ms) (put_members ms ++ rest) ≡ ok (ms, rest)
  unfolding take_members put_members
  take_members-put_members [] rest h = refl
  take_members-put_members (m ∷ ms) rest h = rw (
    append_assoc (ids.as_bytes m.id) _ rest,
    append_assoc (put_u32 (length m.blob)) _ rest,
    append_assoc m.blob _ rest,
    take_member-append m (put_members ms ++ rest) h.0,
    take_members-put_members ms rest h.1,
  )

  pub encode_snapshot_chunk-eq :
      (t : Topic) (more : Bool) (ms : List (Member EndpointId))
      → IsTopic t
      → encode_snapshot_chunk t more ms
        ≡ Decode.encode Tag.snapshot
            (length (body_of (snapshot t more ms)))
            (body_of (snapshot t more ms))
  unfolding encode_snapshot_chunk
  encode_snapshot_chunk-eq t more ms h = ground (
    arith,
    length-append t.bytes (more_flag more ∷ (put_u16 (length ms) ++ put_members ms)),
    length-append (put_u16 (length ms)) (put_members ms),
    length-put_u16 (length ms),
    length-put_members ms,
  )

  pub encode-eq :
      (f : ServerFrame EndpointId)
      → IsFrame f
      → encode f ≡ Decode.encode (tag_of f) (length (body_of f)) (body_of f)
  unfolding encode
  encode-eq (snapshot t more ms) (h, few, fit) =
      rw (take_all (min (length ms) 65535) ms (omega arith)) (encode_snapshot_chunk-eq t more ms h)
  encode-eq (joined t id) h =
      rw (length-append t.bytes (ids.as_bytes id), h, ids.length-as_bytes id)
  encode-eq (left t id) h = rw (length-append t.bytes (ids.as_bytes id), h, ids.length-as_bytes id)
  encode-eq (presence t id blob) h = ground (
    arith,
    length-append t.bytes (ids.as_bytes id ++ blob),
    length-append (ids.as_bytes id) blob,
    ids.length-as_bytes id,
  )
  encode-eq (deliver t payload) h = rw (length-append t.bytes payload, h)
  encode-eq (error none reason) h = rw (length-append zero_topic.bytes reason)
  encode-eq (error (some t) reason) ((nz, h), s) = rw (length-append t.bytes reason, h)

  pub decode-body_of :
      (f : ServerFrame EndpointId) → IsFrame f → decode (tag_of f) (body_of f) ≡ ok f
  unfolding decode get_u8
  decode-body_of (snapshot t more ms) (h, few, fit) = ground (
    arith,
    take_topic-append t (more_flag more ∷ (put_u16 (length ms) ++ put_members ms)) h,
    length-append (put_u16 (length ms)) (put_members ms),
    length-put_u16 (length ms),
    get_u16-put_u16 (length ms) (put_members ms),
    take_members-put_members ms [] fit,
    append-nil (put_members ms),
  )
  decode-body_of (joined t id) h = ground (
    arith,
    take_topic-append t (ids.as_bytes id) h,
    take_id-append id [],
    append-nil (ids.as_bytes id),
  )
  decode-body_of (left t id) h = ground (
    arith,
    take_topic-append t (ids.as_bytes id) h,
    take_id-append id [],
    append-nil (ids.as_bytes id),
  )
  decode-body_of (presence t id blob) h =
      rw (take_topic-append t (ids.as_bytes id ++ blob) h, take_id-append id blob)
  decode-body_of (deliver t payload) h = rw (take_topic-append t payload h)
  decode-body_of (error none reason) (nz, s) = rw (
    take_topic-append zero_topic reason refl,
    zero_topic-is_zero,
    from_utf8_lossy-IsString reason s,
  )
  decode-body_of (error (some t) reason) ((nz, h), s) =
      rw (take_topic-append t reason h, nz, from_utf8_lossy-IsString reason s)
