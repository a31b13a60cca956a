-- ===== src/Server/Deliver.antt =====
-- src/server.rs, `Deliver`: a DELIVER frame that is encoded once and shared by every recipient.
use keep_talking_sfu.Prelude.{
  ℕ, ◌+◌, ◌%◌, ◌^◌, ◌≡◌, ◌∙◌, refl, sym, ap, append_assoc, List, [], ◌∷◌, ◌++◌, length, flatten,
  arith, append-nil, length-append,
}
use keep_talking_sfu.Prelude.Wire.{Bytes, put_u32, length-put_u32}
use keep_talking_sfu.Proto.Ids.{EndpointIds}
use keep_talking_sfu.Proto.Tag
use keep_talking_sfu.Proto.Topic.{Topic, IsTopic}
use keep_talking_sfu.Proto.Decode.{frame_header}
use keep_talking_sfu.Proto.Decode
use keep_talking_sfu.Proto.ServerFrame.{ServerFrame}
use keep_talking_sfu.Proto.ServerFrame

pub record Deliver : Type 0 where
  pub head : Bytes
  pub topic : Bytes
  pub payload : Bytes

unfoldable pub new : Bytes → Bytes → Deliver
new topic payload = record {
  head = frame_header Tag.deliver (length topic + length payload);
  topic = topic;
  payload = payload;
}

unfoldable pub len : Deliver → ℕ
len d = length d.head + length d.topic + length d.payload

unfoldable pub chunks : Deliver → List Bytes
chunks d = d.head ∷ d.topic ∷ d.payload ∷ []

-- The bytes of deliveries, one after the other.
abbrev pub bytes_of : List Deliver → Bytes
bytes_of [] = []
bytes_of (d ∷ ds) = flatten (chunks d) ++ bytes_of ds

pub bytes_of-append : (ds es : List Deliver) → bytes_of (ds ++ es) ≡ bytes_of ds ++ bytes_of es
bytes_of-append [] es = refl
bytes_of-append (d ∷ ds) es =
    ap (λ b. flatten (chunks d) ++ b) (bytes_of-append ds es)
    ∙ sym (append_assoc (flatten (chunks d)) (bytes_of ds) (bytes_of es))

pub len-chunks : (d : Deliver) → len d ≡ length (flatten (chunks d))
unfolding len chunks
len-chunks d = omega (
  arith,
  length-append d.head (d.topic ++ (d.payload ++ [])),
  length-append d.topic (d.payload ++ []),
  length-append d.payload [],
)

pub len-new : (topic payload : Bytes) → len (new topic payload) ≡ 5 + length topic + length payload
unfolding len new frame_header
len-new topic payload = omega (
  arith,
  length-append (put_u32 (1 + (length topic + length payload) % 2 ^ 32)) (Tag.deliver ∷ []),
  length-put_u32 (1 + (length topic + length payload) % 2 ^ 32),
)

module _ (EndpointId : Type 0) ⦃ids : EndpointIds EndpointId⦄ where
  -- The pieces that are written for a delivery are the bytes of the DELIVER frame, though it is
  -- never put together, and they count what that frame counts. The topic has 32 bytes.
  pub chunks-new :
      (t : Topic) (payload : Bytes)
      → IsTopic t
      → let frame : ServerFrame EndpointId = ServerFrame.deliver t payload in
        (flatten (chunks (new t.bytes payload)) ≡ ServerFrame.encode frame)
        × (len (new t.bytes payload) ≡ length (ServerFrame.encode frame))
  unfolding chunks new frame_header ServerFrame.encode Decode.encode put_u32
  chunks-new t payload h = (
    rw (append-nil payload, h) refl,
    rw (len-new t.bytes payload) (omega (arith, length-append t.bytes payload)),
  )
