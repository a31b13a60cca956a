-- ===== src/Server/Session.antt =====
-- src/server.rs, `Readers` and `Session`: what the server does with a client's frames. A
-- call reads the clock at most once, so the reading is an argument.
pub mod Subscriptions
pub mod Leaving
pub mod LaneFrames
pub mod Reading
pub mod Lanes
use keep_talking_sfu.Prelude.{
  ℕ, ◌+◌, Bool, true, false, not, Option, none, some, List, [], ◌∷◌, length, take, leb, ltb, ite,
  if◌then◌else◌,
}
use keep_talking_sfu.Prelude.Outcome.{Outcome, ok, err, panic, ensure, ◌>>=◌, ◌>>◌}
use keep_talking_sfu.Prelude.Wire.{Bytes}
use keep_talking_sfu.Proto.Ids.{EndpointIds}
use keep_talking_sfu.Proto.Limits.{max_announce_len, max_publish_len}
use keep_talking_sfu.Proto.Reason
use keep_talking_sfu.Proto.Lane.{Lane}
use keep_talking_sfu.Proto.Topic.{Topic, is_zero}
use keep_talking_sfu.Proto.Topic
use keep_talking_sfu.Proto.ClientFrame.{ClientFrame, is_lane_frame}
use keep_talking_sfu.Proto.ClientFrame
use keep_talking_sfu.Proto.Decode.{Decoded, DecodeError, not_a_lane_frame}
use keep_talking_sfu.Server.Deliver
use keep_talking_sfu.Server.Deliver.{Deliver}
use keep_talking_sfu.Server.Stats.{Stats, bump, add_at}
use keep_talking_sfu.Server.Outbound
use keep_talking_sfu.Server.World.{Handle, Net, on_link}
use keep_talking_sfu.Server.Rooms.{
  World, Sent, sent, refused, not_subscribed, no_such_recipient, is_member,
}
use keep_talking_sfu.Server.Rooms
use keep_talking_sfu.Server.Limits.{Limits}
use keep_talking_sfu.Server.Bucket.{Doubles, Bucket, try_take}

-- One connection's `Session` and `Readers`, with the shared state that they act on. The set of the
-- subscribed topics is a list.
pub record Session (EndpointId F : Type 0) : Type 0 where
  pub handle : Handle EndpointId
  pub subscribed : List Topic
  pub join_rate : Bucket F
  pub publish_rate : Bucket F
  pub world : World EndpointId

-- `HashSet::contains` and `HashSet::remove`.
abbrev pub contains : Topic → List Topic → Bool
contains t [] = false
contains t (s ∷ topics) = ite (Topic.discrete s t) true (contains t topics)

abbrev pub without : Topic → List Topic → List Topic
without t [] = []
without t (s ∷ topics) = let rest = without t topics in ite (Topic.discrete s t) rest (s ∷ rest)

module _ {EndpointId : Type 0} ⦃ids : EndpointIds EndpointId⦄ where
  -- `decode_lane_frame`: the frame with the topic's bytes as they were received.
  unfoldable pub decode_lane_frame : ℕ → Bytes → Decoded (ClientFrame EndpointId × Bytes)
  decode_lane_frame tag body = do
    frame ← ClientFrame.decode tag body
    ensure (is_lane_frame frame) not_a_lane_frame
    ok (frame, take 32 body)

  -- The loop of `Session::leave_all`, over the drained set.
  unfoldable pub leave_each : Handle EndpointId → List Topic → World EndpointId → World EndpointId
  leave_each h [] w = w
  leave_each h (topic ∷ topics) w = leave_each h topics (Rooms.leave topic h w).0

module _ {EndpointId F : Type 0} where
  -- An update of the counters.
  unfoldable pub count : (Stats → Stats) → Session EndpointId F → Session EndpointId F
  count f s = record s {
    world = record s.world { net = record s.world.net { stats = f s.world.net.stats } };
  }

module _ {EndpointId F : Type 0} ⦃ids : EndpointIds EndpointId⦄ ⦃f64 : Doubles F⦄ where
  -- `handle.error(topic, reason)`
  unfoldable pub answer : Option Topic → Bytes → Session EndpointId F → Session EndpointId F
  answer topic reason s = record s {
    world = record s.world {
      net = on_link s.handle.conn_id (Outbound.error topic reason) s.world.net;
    };
  }

  -- `Readers::take_publish`
  unfoldable pub take_publish : ℕ → ℕ → Session EndpointId F → Session EndpointId F × Bool
  take_publish now frame_len s =
      let (bucket, allowed) = try_take now frame_len s.publish_rate in
      (record s { publish_rate = bucket }, allowed)

  -- `Readers::rate_limited`
  unfoldable pub rate_limited : Topic → Session EndpointId F → Session EndpointId F
  unfolding answer count
  rate_limited topic s =
      answer (some topic) Reason.rate_limited
        (count (λ st. record st { rate_limited = bump st.rate_limited }) s)

  -- `Readers::skip_malformed`; the text of the error is made by the formatter.
  unfoldable pub skip_malformed :
      (ℕ → DecodeError → Bytes) → ℕ → DecodeError → Session EndpointId F → Session EndpointId F
  unfolding answer count
  skip_malformed text tag e s =
      answer none (text tag e) (count (λ st. record st { malformed = bump st.malformed }) s)

  -- The arms on the result in `publish`.
  unfoldable pub report : Lane → Bool → Topic → Sent → Session EndpointId F → Session EndpointId F
  unfolding answer count
  report lane directed topic (sent fanout) s =
      count
        (λ st. record st {
          published = add_at lane 1 st.published;
          delivered = add_at lane fanout st.delivered;
          directed = if directed then bump st.directed else st.directed;
        })
        s
  report lane directed topic (refused not_subscribed) s =
      answer (some topic) Reason.not_subscribed s
  report lane directed topic (refused no_such_recipient) s =
      answer (some topic) Reason.no_such_recipient s

  -- `publish` once the checks are passed.
  unfoldable pub forward :
      Lane → Topic → Option EndpointId → Deliver → Session EndpointId F → Session EndpointId F
  unfolding report
  forward lane topic none d s =
      let (w, result) = Rooms.publish topic s.handle lane d s.world in
      report lane false topic result (record s { world = w })
  forward lane topic (some recipient) d s =
      let (w, result) = Rooms.publish_to topic s.handle recipient lane d s.world in
      report lane true topic result (record s { world = w })

  -- `publish` on the parts of a lane frame.
  unfoldable pub publish_parts :
      ℕ
      → Lane
      → Topic
      → Option EndpointId
      → Bytes
      → Bytes
      → ℕ
      → Session EndpointId F
      → Session EndpointId F
  unfolding answer take_publish rate_limited forward
  publish_parts now lane topic recipient payload topic_bytes frame_len s =
      let (s', allowed) = take_publish now frame_len s in
      if ltb max_publish_len (length payload)
      then answer (some topic) Reason.publish_too_large s
      else if not (is_member topic s.handle s.world.rooms)
      then answer (some topic) Reason.not_subscribed s
      else if not allowed
      then rate_limited topic s'
      else forward lane topic recipient (Deliver.new topic_bytes payload) s'

  -- `Readers::publish`; the frames of the session stream are `unreachable!`.
  unfoldable pub publish :
      ℕ
      → Lane
      → ClientFrame EndpointId
      → Bytes
      → ℕ
      → Session EndpointId F
      → Decoded (Session EndpointId F)
  unfolding publish_parts
  publish now lane (ClientFrame.publish topic payload) topic_bytes frame_len s =
      ok (publish_parts now lane topic none payload topic_bytes frame_len s)
  publish now lane (ClientFrame.publish_to topic recipient payload) topic_bytes frame_len s =
      ok (publish_parts now lane topic (some recipient) payload topic_bytes frame_len s)
  publish now lane _ topic_bytes frame_len s = panic

  -- The room was joined, or is full.
  unfoldable pub joined :
      Topic → World EndpointId × Option ℕ → Session EndpointId F → Session EndpointId F
  unfolding answer
  joined topic (w, some size) s = record s { subscribed = topic ∷ s.subscribed; world = w }
  joined topic (w, none) s = answer (some topic) Reason.room_full (record s { world = w })

  unfoldable pub handle_subscribe :
      Limits F → ℕ → Topic → Session EndpointId F → Session EndpointId F
  unfolding answer rate_limited joined
  handle_subscribe limits now topic s =
      let (bucket, allowed) = try_take now 0 s.join_rate in
      let s' = record s { join_rate = bucket } in
      if contains topic s.subscribed
      then s
      else if is_zero topic
      then answer (some topic) Reason.reserved_topic s
      else if leb limits.max_topics_per_connection (length s.subscribed)
      then answer (some topic) Reason.too_many_topics s
      else if not allowed
      then rate_limited topic s'
      else joined topic (Rooms.join topic s.handle s.world) s'

  unfoldable pub handle_unsubscribe : Topic → Session EndpointId F → Session EndpointId F
  handle_unsubscribe topic s =
      if contains topic s.subscribed
      then record s {
        subscribed = without topic s.subscribed;
        world = (Rooms.leave topic s.handle s.world).0;
      }
      else s

  unfoldable pub handle_announce :
      ℕ → Topic → Bytes → ℕ → Session EndpointId F → Session EndpointId F
  unfolding answer take_publish rate_limited
  handle_announce now topic blob frame_len s =
      let (s', allowed) = take_publish now frame_len s in
      if ltb max_announce_len (length blob)
      then answer (some topic) Reason.announce_too_large s
      else if not (contains topic s.subscribed)
      then answer (some topic) Reason.not_subscribed s
      else if not allowed
      then rate_limited topic s'
      else record s' { world = (Rooms.announce topic s.handle blob s.world).0 }

  -- `Session::handle_frame`
  unfoldable pub handle_frame :
      Limits F → ℕ → ClientFrame EndpointId → ℕ → Session EndpointId F → Session EndpointId F
  unfolding answer handle_subscribe handle_unsubscribe handle_announce
  handle_frame limits now (ClientFrame.subscribe topic) frame_len s =
      handle_subscribe limits now topic s
  handle_frame limits now (ClientFrame.unsubscribe topic) frame_len s = handle_unsubscribe topic s
  handle_frame limits now (ClientFrame.announce topic blob) frame_len s =
      handle_announce now topic blob frame_len s
  handle_frame limits now (ClientFrame.publish topic payload) frame_len s =
      answer (some topic) Reason.publish_on_session s
  handle_frame limits now (ClientFrame.publish_to topic recipient payload) frame_len s =
      answer (some topic) Reason.publish_on_session s

  unfoldable pub leave_all : Session EndpointId F → Session EndpointId F
  unfolding leave_each
  leave_all s = record s { subscribed = []; world = leave_each s.handle s.subscribed s.world }
