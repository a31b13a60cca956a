-- ===== src/Proto/ClientFrame.antt =====
-- src/proto.rs, `ClientFrame`: the frames that a client sends to the SFU.
pub mod RoundTrip
pub mod Canonical
use keep_talking_sfu.Prelude.{
  ℕ, ◌+◌, Bool, true, false, List, [], ◌++◌, length, ◌==◌, if◌then◌else◌,
}
use keep_talking_sfu.Prelude.Outcome.{Outcome, ok, err, ensure, ◌>>=◌, ◌>>◌}
use keep_talking_sfu.Prelude.Wire.{Bytes}
use keep_talking_sfu.Proto.Ids.{EndpointIds}
use keep_talking_sfu.Proto.Tag
use keep_talking_sfu.Proto.Topic.{Topic}
use keep_talking_sfu.Proto.Decode.{
  Decoded, unknown_client_frame, trailing_client_bytes, take_topic, take_id,
}
use keep_talking_sfu.Proto.Decode

pub data ClientFrame (EndpointId : Type 0) : Type 0 where
  subscribe : Topic → ClientFrame EndpointId
  unsubscribe : Topic → ClientFrame EndpointId
  announce : Topic → Bytes → ClientFrame EndpointId
  publish : Topic → Bytes → ClientFrame EndpointId
  publish_to : Topic → EndpointId → Bytes → ClientFrame EndpointId

-- `Bytes::is_empty`
abbrev pub is_empty : Bytes → Bool
is_empty body = length body == 0

-- `ensure!(body.is_empty(), "trailing bytes ...")`, the end of the arms that do not return early.
unfoldable pub no_trailing :
    {EndpointId : Type 0} → ℕ → ClientFrame EndpointId → Bytes → Decoded (ClientFrame EndpointId)
no_trailing tag frame body = do ensure (is_empty body) (trailing_client_bytes tag); ok frame

module _ {EndpointId : Type 0} where
  unfoldable pub topic : ClientFrame EndpointId → Topic
  topic (subscribe t) = t
  topic (unsubscribe t) = t
  topic (announce t blob) = t
  topic (publish t payload) = t
  topic (publish_to t recipient payload) = t

  unfoldable pub is_lane_frame : ClientFrame EndpointId → Bool
  is_lane_frame (publish t payload) = true
  is_lane_frame (publish_to t recipient payload) = true
  is_lane_frame _ = false

module _ {EndpointId : Type 0} ⦃ids : EndpointIds EndpointId⦄ where
  unfoldable pub encode : ClientFrame EndpointId → Bytes
  encode (subscribe t) = Decode.encode Tag.subscribe 32 t.bytes
  encode (unsubscribe t) = Decode.encode Tag.unsubscribe 32 t.bytes
  encode (announce t blob) = Decode.encode Tag.announce (32 + length blob) (t.bytes ++ blob)
  encode (publish t payload) = Decode.encode Tag.publish (32 + length payload) (t.bytes ++ payload)
  encode (publish_to t recipient payload) =
      Decode.encode Tag.publish_to (64 + length payload)
        (t.bytes ++ (ids.as_bytes recipient ++ payload))

  unfoldable pub decode : ℕ → Bytes → Decoded (ClientFrame EndpointId)
  unfolding no_trailing
  decode tag body =
      if tag == Tag.subscribe
      then (do (t, body) ← take_topic body; no_trailing tag (subscribe t) body)
      else if tag == Tag.unsubscribe
      then (do (t, body) ← take_topic body; no_trailing tag (unsubscribe t) body)
      else if tag == Tag.announce
      then (do (t, body) ← take_topic body; ok (announce t body))
      else if tag == Tag.publish
      then (do (t, body) ← take_topic body; ok (publish t body))
      else if tag == Tag.publish_to
      then (do
        (t, body) ← take_topic body
        (recipient, body) ← take_id body
        ok (publish_to t recipient body))
      else err (unknown_client_frame tag)
