-- ===== src/Server/Session/LaneFrames.antt =====
-- Frames of the lane streams: what `decode_lane_frame` gives to `publish`, and whom that reaches.
use keep_talking_sfu.Prelude.{
  ℕ, ◌≤◌, ◌≡◌, ◌≢◌, ◌∙◌, refl, sym, ap, Bool, true, false, Bool-cases, none, ◌++◌, length, take,
  ltb, take_all, take-append, subst, if◌then◌else◌, arith, inl, inr,
}
use keep_talking_sfu.Prelude.Outcome.{
  ok, err, panic, ◌>>=◌, ensure, ok-panic, err-panic, err-ok, ok-inj,
}
use keep_talking_sfu.Prelude.Wire.{Bytes}
use keep_talking_sfu.Proto.Ids.{EndpointIds}
use keep_talking_sfu.Proto.Limits.{max_publish_len}
use keep_talking_sfu.Proto.Lane.{Lane}
use keep_talking_sfu.Proto.Topic.{Topic, IsTopic}
use keep_talking_sfu.Proto.ClientFrame.{ClientFrame, topic, is_lane_frame, decode}
use keep_talking_sfu.Proto.ClientFrame.RoundTrip.{body_of, IsFrame}
use keep_talking_sfu.Proto.ClientFrame.Canonical.{client_decode_total, decode-ok}
use keep_talking_sfu.Proto.Decode.{Decoded, not_a_lane_frame}
use keep_talking_sfu.Server.Deliver.{Deliver}
use keep_talking_sfu.Server.Deliver
use keep_talking_sfu.Server.Outbound.{deliver}
use keep_talking_sfu.Server.Rooms.{Sent, sent, refused, is_member}
use keep_talking_sfu.Server.Rooms
use keep_talking_sfu.Server.Rooms.Fanout.{hears}
use keep_talking_sfu.Server.Rooms.Invariant.{Inv}
use keep_talking_sfu.Server.Rooms.Takeover.{room_at}
use keep_talking_sfu.Server.Rooms.Publish.{publish_reaches}
use keep_talking_sfu.Server.Bucket.{Doubles, try_take}
use keep_talking_sfu.Server.Session.{
  Session, decode_lane_frame, publish, publish_parts, take_publish, forward, report, count,
}

small_test :
    (payload : Bytes)
    → length payload ≤ max_publish_len
    → ltb max_publish_len (length payload) ≡ false
small_test payload h = ground arith

module _ {EndpointId : Type 0} ⦃ids : EndpointIds EndpointId⦄ where
  -- The first 32 bytes of a frame's body are its topic.
  pub topic-body_of :
      (f : ClientFrame EndpointId) → IsFrame f → take 32 (body_of f) ≡ (topic f).bytes
  unfolding topic
  topic-body_of (ClientFrame.subscribe t) h = take_all 32 t.bytes (omega (arith, h))
  topic-body_of (ClientFrame.unsubscribe t) h = take_all 32 t.bytes (omega (arith, h))
  topic-body_of (ClientFrame.announce t blob) h = take-append 32 t.bytes blob h
  topic-body_of (ClientFrame.publish t payload) h = take-append 32 t.bytes payload h
  topic-body_of (ClientFrame.publish_to t recipient payload) h =
      take-append 32 t.bytes (ids.as_bytes recipient ++ payload) h

  -- What the decoder of the lanes does with a decoded frame.
  abbrev checked :
      ℕ → Bytes → Decoded (ClientFrame EndpointId) → Decoded (ClientFrame EndpointId × Bytes)
  checked tag body out = out >>= λ frame.
      ensure (is_lane_frame frame) not_a_lane_frame >>= λ _. ok (frame, take 32 body)

  checked_total :
      (tag : ℕ) (body : Bytes) (out : Decoded (ClientFrame EndpointId))
      → out ≢ panic
      → checked tag body out ≢ panic
  checked_total tag body (ok f) h = elim (Bool-cases (is_lane_frame f)) [
    | inl yes_lane ↦ rw yes_lane (ok-panic _)
    | inr no_lane ↦ rw no_lane (err-panic _)
  ]
  checked_total tag body (err e) h = err-panic e
  checked_total tag body panic h = absurd (h refl)

  checked-ok :
      (tag : ℕ) (body : Bytes) (out : Decoded (ClientFrame EndpointId)) (f : ClientFrame EndpointId)
      (b : Bytes)
      → checked tag body out ≡ ok (f, b)
      → (out ≡ ok f) × (is_lane_frame f ≡ true) × (b ≡ take 32 body)
  checked-ok tag body (ok g) f b p = elim (Bool-cases (is_lane_frame g)) [
    | inl yes_lane ↦
        let same = ok-inj (g, take 32 body) (f, b) (rw yes_lane at p) in
        (
          ap (λ q. ok (q.0)) same,
          subst (λ q. is_lane_frame (q.0) ≡ true) same yes_lane,
          sym (ap (λ q. q.1) same),
        )
    | inr no_lane ↦ absurd (err-ok not_a_lane_frame (f, b) (rw no_lane at p))
  ]
  checked-ok tag body (err e) f b p = absurd (err-ok e (f, b) p)
  checked-ok tag body panic f b p = absurd (ok-panic (f, b) (sym p))

  -- Decoding a lane frame does not panic, and a frame that it returns is a PUBLISH or a PUBLISH_TO
  -- that comes with exactly the bytes of its own topic, of which there are 32.
  pub decode_lane_frame_lem :
      (tag : ℕ) (body : Bytes) (f : ClientFrame EndpointId) (b : Bytes)
      → decode_lane_frame tag body ≡ ok (f, b)
      → (is_lane_frame f ≡ true) × (b ≡ (topic f).bytes) × IsTopic (topic f)
  unfolding decode_lane_frame
  decode_lane_frame_lem tag body f b e =
      let (d, is_lane, bytes) = checked-ok tag body (decode tag body) f b e in
      let (h, tagged, whole) = decode-ok tag body f d in
      (is_lane, bytes ∙ ap (λ x. take 32 x) (sym whole) ∙ topic-body_of f h, h)

module _ {EndpointId F : Type 0} ⦃ids : EndpointIds EndpointId⦄ ⦃f64 : Doubles F⦄ where
  publish_total :
      (now : ℕ) (lane : Lane) (f : ClientFrame EndpointId) (b : Bytes) (n : ℕ)
      (s : Session EndpointId F)
      → is_lane_frame f ≡ true
      → publish now lane f b n s ≢ panic
  unfolding publish is_lane_frame
  publish_total now lane (ClientFrame.publish t payload) b n s h = ok-panic _
  publish_total now lane (ClientFrame.publish_to t recipient payload) b n s h = ok-panic _
  publish_total now lane (ClientFrame.subscribe t) b n s h = cc
  publish_total now lane (ClientFrame.unsubscribe t) b n s h = cc
  publish_total now lane (ClientFrame.announce t blob) b n s h = cc

  checked-publish :
      (tag : ℕ) (body : Bytes) (out : Decoded (ClientFrame EndpointId)) (now : ℕ) (lane : Lane)
      (n : ℕ) (s : Session EndpointId F)
      → out ≢ panic
      → (checked tag body out >>= λ p. publish now lane (p.0) (p.1) n s) ≢ panic
  checked-publish tag body (ok f) now lane n s h = elim (Bool-cases (is_lane_frame f)) [
    | inl yes_lane ↦ rw yes_lane (publish_total now lane f (take 32 body) n s yes_lane)
    | inr no_lane ↦ rw no_lane (err-panic _)
  ]
  checked-publish tag body (err e) now lane n s h = err-panic e
  checked-publish tag body panic now lane n s h = absurd (h refl)

  -- The reader of a lane never reaches the `unreachable!` of `publish`: decoding the frame does not
  -- panic, and publishing a frame that it returns does not.
  pub lane_total :
      (tag : ℕ) (body : Bytes) (now : ℕ) (lane : Lane) (n : ℕ) (s : Session EndpointId F)
      → (decode_lane_frame tag body >>= λ (f, b). publish now lane f b n s) ≢ panic
  unfolding decode_lane_frame
  lane_total tag body now lane n s =
      checked-publish tag body (decode tag body) now lane n s (client_decode_total tag body)

  report-links :
      (lane : Lane) (directed : Bool) (t : Topic) (r : Sent) (k : ℕ) (s : Session EndpointId F)
      → r ≡ sent k
      → ((report lane directed t r s).world.net.links ≡ s.world.net.links)
        × ((report lane directed t r s).world.rooms ≡ s.world.rooms)
  unfolding report count
  report-links lane directed t (sent n) k s e = (refl, refl)
  report-links lane directed t (refused r) k s e = cc

  -- In well-formed rooms, an undirected PUBLISH of a member whose payload is in bounds and whose
  -- bucket allows it reaches each connection of another member once, with the DELIVER made of the
  -- topic's bytes and the payload on the lane that it came on, and no other connection; the rooms
  -- stay.
  pub publish_forwards :
      (peer_of : ℕ → EndpointId) (now : ℕ) (lane : Lane) (t : Topic) (payload b : Bytes) (n c : ℕ)
      (s : Session EndpointId F)
      → Inv peer_of s.world.rooms
      → length payload ≤ max_publish_len
      → is_member t s.handle s.world.rooms ≡ true
      → (try_take now n s.publish_rate).1 ≡ true
      → let s' = publish_parts now lane t none payload b n s in
        (s'.world.net.links c ≡ (
          if hears c s.handle.peer (room_at s.world.rooms t)
          then (deliver lane (Deliver.new b payload) (s.world.net.links c)).0
          else s.world.net.links c))
        × (s'.world.rooms ≡ s.world.rooms)
  unfolding publish_parts take_publish forward
  publish_forwards peer_of now lane t payload b n c s v small member allowed =
      let d = Deliver.new b payload in
      let (answered, rooms, links) = publish_reaches peer_of t s.handle s.world v member lane d c in
      let s' = record s {
        publish_rate = (try_take now n s.publish_rate).0;
        world = (Rooms.publish t s.handle lane d s.world).0;
      } in
      let (l, r) =
        report-links lane false t (Rooms.publish t s.handle lane d s.world).1 _ s' answered in
      rw (small_test payload small) (rw member (rw allowed (ap (λ f. f c) l ∙ links, r ∙ rooms)))
