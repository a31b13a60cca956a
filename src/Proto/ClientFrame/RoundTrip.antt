-- ===== src/Proto/ClientFrame/RoundTrip.antt =====
-- Client frames: what `encode` writes is a header and a body that `decode` reads back.
use keep_talking_sfu.Prelude.{ℕ, ◌≡◌, [], ◌++◌, length, arith, append-nil, length-append}
use keep_talking_sfu.Prelude.Outcome.{ok}
use keep_talking_sfu.Prelude.Wire.{Bytes}
use keep_talking_sfu.Proto.Ids.{EndpointIds}
use keep_talking_sfu.Proto.Tag
use keep_talking_sfu.Proto.Topic.{IsTopic}
use keep_talking_sfu.Proto.Decode.{take_topic-append, take_id-append}
use keep_talking_sfu.Proto.Decode
use keep_talking_sfu.Proto.ClientFrame.{
  ClientFrame, subscribe, unsubscribe, announce, publish, publish_to, topic, encode, decode,
}

module _ {EndpointId : Type 0} ⦃ids : EndpointIds EndpointId⦄ where
  -- The tag and the body of a frame, as the table of the protocol gives them.
  abbrev pub tag_of : ClientFrame EndpointId → ℕ
  tag_of (subscribe t) = Tag.subscribe
  tag_of (unsubscribe t) = Tag.unsubscribe
  tag_of (announce t blob) = Tag.announce
  tag_of (publish t payload) = Tag.publish
  tag_of (publish_to t recipient payload) = Tag.publish_to

  abbrev pub body_of : ClientFrame EndpointId → Bytes
  body_of (subscribe t) = t.bytes
  body_of (unsubscribe t) = t.bytes
  body_of (announce t blob) = t.bytes ++ blob
  body_of (publish t payload) = t.bytes ++ payload
  body_of (publish_to t recipient payload) = t.bytes ++ (ids.as_bytes recipient ++ payload)

  abbrev pub IsFrame : ClientFrame EndpointId → Type 0
  IsFrame f = IsTopic (topic f)

  pub encode-eq :
      (f : ClientFrame EndpointId)
      → IsFrame f
      → encode f ≡ Decode.encode (tag_of f) (length (body_of f)) (body_of f)
  unfolding encode topic
  encode-eq (subscribe t) h = rw h
  encode-eq (unsubscribe t) h = rw h
  encode-eq (announce t blob) h = rw (length-append t.bytes blob, h)
  encode-eq (publish t payload) h = rw (length-append t.bytes payload, h)
  encode-eq (publish_to t recipient payload) h = ground (
    arith,
    length-append t.bytes (ids.as_bytes recipient ++ payload),
    length-append (ids.as_bytes recipient) payload,
    ids.length-as_bytes recipient,
  )

  pub decode-body_of :
      (f : ClientFrame EndpointId) → IsFrame f → decode (tag_of f) (body_of f) ≡ ok f
  unfolding decode topic
  decode-body_of (subscribe t) h = ground (arith, take_topic-append t [] h, append-nil t.bytes)
  decode-body_of (unsubscribe t) h = ground (arith, take_topic-append t [] h, append-nil t.bytes)
  decode-body_of (announce t blob) h = rw (take_topic-append t blob h)
  decode-body_of (publish t payload) h = rw (take_topic-append t payload h)
  decode-body_of (publish_to t recipient payload) h =
      rw (
        take_topic-append t (ids.as_bytes recipient ++ payload) h,
        take_id-append recipient payload,
      )
