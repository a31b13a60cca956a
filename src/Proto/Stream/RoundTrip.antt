-- ===== src/Proto/Stream/RoundTrip.antt =====
-- Frames written on a stream are the frames read from it, however they are cut on the way.
use keep_talking_sfu.Prelude.{
  ℕ, ◌+◌, ◌%◌, ◌^◌, ◌≤◌, ◌≡◌, refl, ap, ◌∙◌, ◌∷◌, ◌++◌, length, arith, length-append, take-append,
  drop-append,
}
use keep_talking_sfu.Prelude.Outcome.{ok}
use keep_talking_sfu.Prelude.Wire.{Bytes, put_u32, from_be32-put_u32, length-put_u32}
use keep_talking_sfu.Proto.Ids.{EndpointIds}
use keep_talking_sfu.Proto.Limits.{max_frame_len}
use keep_talking_sfu.Proto.Decode
use keep_talking_sfu.Proto.ClientFrame
use keep_talking_sfu.Proto.ClientFrame.{ClientFrame}
use keep_talking_sfu.Proto.ServerFrame
use keep_talking_sfu.Proto.ServerFrame.{ServerFrame}
use keep_talking_sfu.Proto.Stream.{End, Stream, content, got, read_frame}
use keep_talking_sfu.Proto.Stream.Reassembly.{whole, seen, frame_of, read_frame-frame_of}

pub length-encode : (tag n : ℕ) (body : Bytes) → length (Decode.encode tag n body) ≡ 5 + length body
unfolding Decode.encode
length-encode tag n body =
    omega (
      arith,
      length-append (put_u32 (1 + n % 2 ^ 32)) (tag ∷ body),
      length-put_u32 (1 + n % 2 ^ 32),
    )

pub frame_of-encode :
    (tag : ℕ) (body rest : Bytes) (e : End)
    → 1 + length body ≤ max_frame_len
    → frame_of (Decode.encode tag (length body) body ++ rest) e ≡ got (tag, body) (whole rest e)
unfolding Decode.encode put_u32
frame_of-encode tag body rest e fits = ground (
  arith,
  from_be32-put_u32 (1 + length body % 2 ^ 32),
  length-append body rest,
  take-append (length body) body rest refl,
  drop-append (length body) body rest refl,
)

-- On a stream whose content begins with this frame, the next frame read has its tag and body.
read_frame-encode :
    (tag : ℕ) (body rest : Bytes) (s : Stream)
    → content s ≡ Decode.encode tag (length body) body ++ rest
    → length (Decode.encode tag (length body) body) ≤ 4 + max_frame_len
    → seen (read_frame s) ≡ got (tag, body) (whole rest s.ending)
read_frame-encode tag body rest s c fits =
    read_frame-frame_of s
    ∙ ap (λ b. frame_of b s.ending) c
    ∙ frame_of-encode tag body rest s.ending (omega (arith, length-encode tag (length body) body))

module _ {EndpointId : Type 0} ⦃ids : EndpointIds EndpointId⦄ where
  -- A client frame that `encode` wrote is read back from a stream, in whatever pieces it arrives:
  -- `read_frame` returns a tag and a body that `decode` takes back to the frame, and leaves what
  -- follows. The topic has 32 bytes and the frame's length is within `MAX_FRAME_LEN`.
  pub client_frame-read_frame :
      (f : ClientFrame EndpointId) (rest : Bytes) (s : Stream)
      → ClientFrame.RoundTrip.IsFrame f
      → length (ClientFrame.encode f) ≤ 4 + max_frame_len
      → content s ≡ ClientFrame.encode f ++ rest
      → (p : ℕ × Bytes) × (seen (read_frame s) ≡ got p (whole rest s.ending))
        × (ClientFrame.decode p.0 p.1 ≡ ok f)
  client_frame-read_frame f rest s h fits c =
      let e = ClientFrame.RoundTrip.encode-eq f h in
      (
        (ClientFrame.RoundTrip.tag_of f, ClientFrame.RoundTrip.body_of f),
        read_frame-encode _ _ rest s (c ∙ ap (λ b. b ++ rest) e) (rw e at fits),
        ClientFrame.RoundTrip.decode-body_of f h,
      )

  -- A server frame that `encode` wrote is read back from a stream, in whatever pieces it arrives:
  -- `read_frame` returns a tag and a body that `decode` takes back to the frame, and leaves what
  -- follows. The topic has 32 bytes, counts and lengths fit their fields, an ERROR names no zero
  -- topic and its reason is a `String`, and the frame's length is within `MAX_FRAME_LEN`.
  pub server_frame-read_frame :
      (f : ServerFrame EndpointId) (rest : Bytes) (s : Stream)
      → ServerFrame.RoundTrip.IsFrame f
      → length (ServerFrame.encode f) ≤ 4 + max_frame_len
      → content s ≡ ServerFrame.encode f ++ rest
      → (p : ℕ × Bytes) × (seen (read_frame s) ≡ got p (whole rest s.ending))
        × (ServerFrame.decode p.0 p.1 ≡ ok f)
  server_frame-read_frame f rest s h fits c =
      let e = ServerFrame.RoundTrip.encode-eq f h in
      (
        (ServerFrame.RoundTrip.tag_of f, ServerFrame.RoundTrip.body_of f),
        read_frame-encode _ _ rest s (c ∙ ap (λ b. b ++ rest) e) (rw e at fits),
        ServerFrame.RoundTrip.decode-body_of f h,
      )
