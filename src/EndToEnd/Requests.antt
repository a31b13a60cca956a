-- ===== src/EndToEnd/Requests.antt =====
-- A lane stream with a client's frames, and what the server's reader makes of it.
use keep_talking_sfu.Prelude.{
  ℕ, zero, suc, ◌+◌, ◌<◌, ◌≤◌, ◌≡◌, ◌∙◌, refl, sym, ap, true, none, some, List, [], ◌∷◌, ◌++◌, All,
  length, take, arith, length-append,
}
use keep_talking_sfu.Prelude.Outcome.{ok, ◌>>=◌}
use keep_talking_sfu.Prelude.Wire.{Bytes}
use keep_talking_sfu.Proto.Ids.{EndpointIds}
use keep_talking_sfu.Proto.Limits.{max_frame_len}
use keep_talking_sfu.Proto.Lane.{
  Lane, control, interactive, bulk, prefix, from_byte-byte, prefix-byte,
}
use keep_talking_sfu.Proto.Decode.{DecodeError}
use keep_talking_sfu.Proto.ClientFrame.{ClientFrame, topic, is_lane_frame, encode, decode}
use keep_talking_sfu.Proto.ClientFrame.RoundTrip.{IsFrame, body_of, encode-eq}
use keep_talking_sfu.Proto.ClientFrame.Canonical.{decode-ok}
use keep_talking_sfu.Proto.Stream.{
  End, finished, Stream, content, Read, got, ended, broken, bad_length, truncated, stuck,
  read_frame, read_lane_byte,
}
use keep_talking_sfu.Proto.Stream.Reassembly.{whole, seen, frame_of, read_frame-frame_of}
use keep_talking_sfu.Proto.Stream.RoundTrip.{client_frame-read_frame, length-encode}
use keep_talking_sfu.Server.Bucket.{Doubles}
use keep_talking_sfu.Server.Session.{Session, decode_lane_frame, publish, publish_parts}
use keep_talking_sfu.Server.Session.LaneFrames.{topic-body_of}
use keep_talking_sfu.Server.Session.Lanes.{
  LaneEnd, quiet, published, after_lane_read, after_lane_byte, on_lane, read_frames, read_lane,
}
use keep_talking_sfu.Client.LaneStream.Delivered.{IsLong, read_lane_byte-byte_of, byte_of}
use keep_talking_sfu.Client.Requests.Streams.{encode_all}

-- What was read, and that the rest has these bytes.
seen-got :
    {A : Type 0} (r : Read A) (a : A) (b : Bytes) (e : End)
    → seen r ≡ got a (whole b e)
    → (rest : Stream) × (r ≡ got a rest) × (content rest ≡ b) × (rest.ending ≡ e)
seen-got (got x s) a b e h = (s, cc, cc, cc)
seen-got ended a b e h = cc
seen-got broken a b e h = cc
seen-got (bad_length n) a b e h = cc
seen-got truncated a b e h = cc
seen-got stuck a b e h = cc

seen-ended : {A : Type 0} (r : Read A) → seen r ≡ ended → r ≡ ended
seen-ended (got x s) h = cc
seen-ended ended h = refl
seen-ended broken h = cc
seen-ended (bad_length n) h = cc
seen-ended truncated h = cc
seen-ended stuck h = cc

module _ {EndpointId : Type 0} ⦃ids : EndpointIds EndpointId⦄ where
  -- A PUBLISH or PUBLISH_TO with a topic of 32 bytes, within the bound for frames.
  abbrev pub IsRequest : ClientFrame EndpointId → Type 0
  IsRequest f = (is_lane_frame f ≡ true) × IsFrame f × (length (encode f) ≤ 4 + max_frame_len)

  length-encode_frame :
      (f : ClientFrame EndpointId) → IsFrame f → length (encode f) ≡ 5 + length (body_of f)
  length-encode_frame f h = ap length (encode-eq f h) ∙ length-encode _ _ (body_of f)

  length-encode_all :
      (fs : List (ClientFrame EndpointId)) → All IsRequest fs → length fs ≤ length (encode_all fs)
  length-encode_all [] h = omega arith
  length-encode_all (f ∷ fs) ((is_lane, h, fits), hs) = omega (
    arith,
    length-append (encode f) (encode_all fs),
    length-encode_frame f h,
    length-encode_all fs hs,
  )

  decode_lane_frame-ok :
      (tag : ℕ) (body : Bytes) (f : ClientFrame EndpointId)
      → IsRequest f
      → decode tag body ≡ ok f
      → decode_lane_frame tag body ≡ ok (f, (topic f).bytes)
  unfolding decode_lane_frame
  decode_lane_frame-ok tag body f (is_lane, h, fits) d =
      let (h', tagged, same) = decode-ok tag body f d in
      rw (d, is_lane) (ap (λ b. ok (f, b)) (ap (λ x. take 32 x) (sym same) ∙ topic-body_of f h))

module _ {EndpointId F : Type 0} ⦃ids : EndpointIds EndpointId⦄ ⦃f64 : Doubles F⦄ where
  -- What `publish` does with a frame of a lane, sized as the client encodes it.
  abbrev pub requested :
      ℕ → Lane → ClientFrame EndpointId → Session EndpointId F → Session EndpointId F
  requested now lane (ClientFrame.publish t payload) s =
      publish_parts now lane t none payload t.bytes
        (length (encode {EndpointId = EndpointId} (ClientFrame.publish t payload))) s
  requested now lane (ClientFrame.publish_to t to payload) s =
      publish_parts now lane t (some to) payload t.bytes
        (length (encode (ClientFrame.publish_to t to payload))) s
  requested now lane _ s = s

  -- The frames one after the other; the clock is read at each by the turns that are left.
  unfoldable pub publish_all :
      (ℕ → ℕ)
      → Lane
      → ℕ
      → List (ClientFrame EndpointId)
      → Session EndpointId F
      → Session EndpointId F
  publish_all clock lane (suc turns) (f ∷ fs) s =
      publish_all clock lane turns fs (requested (clock turns) lane f s)
  publish_all clock lane _ _ s = s

  publish-requested :
      (now : ℕ) (lane : Lane) (f : ClientFrame EndpointId) (s : Session EndpointId F)
      → is_lane_frame f ≡ true
      → publish now lane f (topic f).bytes (length (encode f)) s ≡ ok (requested now lane f s)
  unfolding publish is_lane_frame topic
  publish-requested now lane (ClientFrame.publish t payload) s h = refl
  publish-requested now lane (ClientFrame.publish_to t to payload) s h = refl
  publish-requested now lane (ClientFrame.subscribe t) s h = cc
  publish-requested now lane (ClientFrame.unsubscribe t) s h = cc
  publish-requested now lane (ClientFrame.announce t blob) s h = cc

  module _ (text : ℕ → DecodeError → Bytes) where
    published-requested :
        (now : ℕ) (lane : Lane) (tag : ℕ) (body : Bytes) (f : ClientFrame EndpointId)
        (s : Session EndpointId F)
        → IsRequest f
        → decode tag body ≡ ok f
        → published text now lane tag body s ≡ ok (requested now lane f s)
    published-requested now lane tag body f s (is_lane, h, fits) d =
        let (h', tagged, same) = decode-ok tag body f d in
        ap (λ r. r >>= λ (g, b). publish now lane g b (5 + length body) s)
          (decode_lane_frame-ok tag body f (is_lane, h, fits) d)
        ∙ ap (λ n. publish now lane f (topic f).bytes n s)
            (ap (λ b. 5 + length b) (sym same) ∙ sym (length-encode_frame f h))
        ∙ publish-requested now lane f s is_lane

    after_lane_read-requested :
        (go_on : Stream → Session EndpointId F → Session EndpointId F × LaneEnd) (now : ℕ)
        (lane : Lane) (p : ℕ × Bytes) (rest : Stream) (f : ClientFrame EndpointId)
        (s : Session EndpointId F)
        → IsRequest f
        → decode p.0 p.1 ≡ ok f
        → after_lane_read text go_on now lane (got p rest) s ≡ go_on rest (requested now lane f s)
    after_lane_read-requested go_on now lane (tag, body) rest f s h d =
        rw (published-requested now lane tag body f s h d) refl

    read_frames-publish_all :
        (fuel : ℕ) (clock : ℕ → ℕ) (lane : Lane) (fs : List (ClientFrame EndpointId))
        (stream : Stream) (s : Session EndpointId F)
        → length fs < fuel
        → All IsRequest fs
        → content stream ≡ encode_all fs
        → stream.ending ≡ finished
        → read_frames text fuel clock lane stream s ≡ (publish_all clock lane fuel fs s, quiet)
    unfolding read_frames publish_all
    read_frames-publish_all zero clock lane fs stream s enough h c e = absurd (omega arith)
    read_frames-publish_all (suc fuel) clock lane [] stream s enough h c e =
        rw
          (seen-ended (read_frame stream) (
            read_frame-frame_of stream
            ∙ ap (λ b. frame_of b stream.ending) c
            ∙ ap (λ x. frame_of [] x) e))
          refl
    read_frames-publish_all (suc fuel) clock lane (f ∷ fs) stream s enough (h, hs) c e =
        let (is_lane, framed, fits) = h in
        let (p, r, d) = client_frame-read_frame f (encode_all fs) stream framed fits c in
        let (rest, same, c', e') = seen-got (read_frame stream) p (encode_all fs) stream.ending r in
        ap
          (λ r.
            after_lane_read text (λ rest s'. read_frames text fuel clock lane rest s') (clock fuel)
              lane r s)
          same
        ∙ after_lane_read-requested (λ rest s'. read_frames text fuel clock lane rest s')
            (clock fuel) lane p rest f s h d
        ∙ read_frames-publish_all fuel clock lane fs rest (requested (clock fuel) lane f s)
            (omega arith) hs c' (e' ∙ e)

    on_lane-publish_all :
        (clock : ℕ → ℕ) (lane : Lane) (fs : List (ClientFrame EndpointId)) (rest : Stream)
        (s : Session EndpointId F)
        → IsLong lane
        → All IsRequest fs
        → content rest ≡ encode_all fs
        → rest.ending ≡ finished
        → on_lane text clock (some lane) rest s
          ≡ (publish_all clock lane (suc (length (encode_all fs))) fs s, quiet)
    on_lane-publish_all clock control fs rest s long h c e =
        ap (λ b. read_frames text (suc (length b)) clock control rest s) c
        ∙ read_frames-publish_all (suc (length (encode_all fs))) clock control fs rest s
            (omega (arith, length-encode_all fs h)) h c e
    on_lane-publish_all clock interactive fs rest s long h c e =
        ap (λ b. read_frames text (suc (length b)) clock interactive rest s) c
        ∙ read_frames-publish_all (suc (length (encode_all fs))) clock interactive fs rest s
            (omega (arith, length-encode_all fs h)) h c e
    on_lane-publish_all clock bulk fs rest s long h c e = absurd long

    -- A stream with the byte of a long-lived lane, requests and its end.
    pub read_lane-publish_all :
        (clock : ℕ → ℕ) (lane : Lane) (fs : List (ClientFrame EndpointId)) (stream : Stream)
        (s : Session EndpointId F)
        → IsLong lane
        → All IsRequest fs
        → content stream ≡ prefix lane ++ encode_all fs
        → stream.ending ≡ finished
        → read_lane text clock stream s
          ≡ (publish_all clock lane (suc (length (encode_all fs))) fs s, quiet)
    unfolding read_lane
    read_lane-publish_all clock lane fs stream s long h c e =
        let (rest, same, c', e') =
          seen-got (read_lane_byte stream) _ (encode_all fs) stream.ending (
            read_lane_byte-byte_of stream
            ∙ ap (λ b. byte_of b stream.ending)
                (c ∙ ap (λ b. b ++ encode_all fs) (prefix-byte lane))) in
        ap (λ r. after_lane_byte text clock r s) same
        ∙ ap (λ o. on_lane text clock o rest s) (from_byte-byte lane)
        ∙ on_lane-publish_all clock lane fs rest s long h c' (e' ∙ e)
