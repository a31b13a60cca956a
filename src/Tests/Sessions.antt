-- ===== src/Tests/Sessions.antt =====
-- Runs of the theorems on the frames of one client, with buckets that count in whole numbers.
use keep_talking_sfu.Prelude.{
  length, take, ℕ, ◌+◌, ◌*◌, ◌-◌, ◌≤◌, ◌≡◌, ◌≢◌, refl, min, true, false, not, ◌&&◌, none, [], ◌∷◌,
  ◌++◌, ltb, leb, if◌then◌else◌, arith, ℕ_discrete,
}
use keep_talking_sfu.Prelude.Outcome.{ok}
use keep_talking_sfu.Proto.Tag
use keep_talking_sfu.Proto.Lane.{control}
use keep_talking_sfu.Proto.Topic.{Topic, IsTopic, zero_topic}
use keep_talking_sfu.Proto.Topic
use keep_talking_sfu.Proto.ClientFrame.{ClientFrame, topic, is_lane_frame}
use keep_talking_sfu.Proto.ClientFrame
use keep_talking_sfu.Proto.Decode
use keep_talking_sfu.Proto.Decode.{take_topic-append}
use keep_talking_sfu.Server.Deliver
use keep_talking_sfu.Server.Outbound.{deliver}
use keep_talking_sfu.Server.Rooms.Fanout.{hears}
use keep_talking_sfu.Server.Rooms.Takeover.{room_at}
use keep_talking_sfu.Server.Rooms.{is_member}
use keep_talking_sfu.Prelude.{◌^◌}
use keep_talking_sfu.Server.Slots.{Slots, acquire, starts, acquires, slots_bounded}
use keep_talking_sfu.Proto.Datagram.{datagram}
use keep_talking_sfu.Server.Datagrams.{Forwarder, forward_datagram}
use keep_talking_sfu.Server.Datagrams.Forwarding.{sends_to, is_forwarded, forward_datagram_reaches}
use keep_talking_sfu.Server.Stats.{bump}
use keep_talking_sfu.Server.Stats
use keep_talking_sfu.Proto.Stream.{End, Stream}
use keep_talking_sfu.Server.Session.Reading.{panicked, out_of_fuel, read_loop, read_loop-Ends}
use keep_talking_sfu.Server.Session.Lanes.{
  lane_panicked, lane_out_of_fuel, read_frames, read_frames-ends,
}
use keep_talking_sfu.Server.Bucket.{Doubles, Rate, Bucket, IsValid, try_take, try_take-IsValid}
use keep_talking_sfu.Server.Bucket
use keep_talking_sfu.Server.Limits.{default_limits}
use keep_talking_sfu.Server.Session.{
  Session, contains, handle_frame, leave_all, decode_lane_frame, publish_parts,
}
use keep_talking_sfu.Server.Session.Subscriptions.{IsSession, handle_frame-IsSession}
use keep_talking_sfu.Server.Session.Leaving.{leave_all-is_member}
use keep_talking_sfu.Server.Session.LaneFrames.{publish_forwards}
use keep_talking_sfu.Tests.Fixtures.{
  Peer, bob, peers, peer_of, room_topic, bob_handle, world_with_both,
}
use keep_talking_sfu.Tests.Rooms.{both_Inv, bob_is_member}

-- Whole numbers, none of them infinite.
instance abbrev pub whole_numbers : Doubles ℕ
whole_numbers = record {
  plus = λ a b. a + b;
  minus = λ a b. a - b;
  times = λ a b. a * b;
  minimum = λ a b. min a b;
  lt = ltb;
  le = leb;
  infinity = 0;
  is_infinite = λ _. false;
  from_usize = λ n. n;
  as_secs = λ n. n;
  minimum-le = λ a b h. ground arith;
  minus-le = λ a b n h. ground arith;
  infinite-le = λ b h k. ground arith;
}

abbrev rate : Rate ℕ
rate = record { bytes_per_second = 1; burst_bytes = 100; frames_per_second = 1; burst_frames = 3 }

abbrev full : Bucket ℕ
full = record { rate = rate; bytes = 100; frames = 3; last = 0 }

full-IsValid : IsValid full
full-IsValid = record {
  burst_bytes = (refl, refl);
  burst_frames = (refl, refl);
  bytes = refl;
  frames = refl;
}

try_take-IsValid_example :
    IsValid (try_take 5 60 full).0
    × ((try_take 5 60 full).0.rate ≡ rate)
    × ((try_take 5 60 full).0.last ≡ 5)
try_take-IsValid_example = try_take-IsValid 5 60 full full-IsValid

abbrev pub bob_session : Session Peer ℕ
bob_session = record {
  handle = bob_handle;
  subscribed = room_topic ∷ [];
  join_rate = full;
  publish_rate = full;
  world = world_with_both;
}

bob_session-IsSession : IsSession peer_of default_limits bob_session
unfolding default_limits Topic.discrete ℕ_discrete
bob_session-IsSession = record {
  rooms = both_Inv;
  auth = refl;
  few = omega arith;
  unique = (refl, tt);
  no_zero = refl;
}

handle_frame-IsSession_example :
    IsSession peer_of default_limits
      (handle_frame default_limits 1 (ClientFrame.unsubscribe room_topic) 37 bob_session)
handle_frame-IsSession_example =
    handle_frame-IsSession peer_of default_limits 1 37 (ClientFrame.unsubscribe room_topic)
      bob_session bob_session-IsSession

leave_all-is_member_example :
    (is_member room_topic bob_handle (leave_all bob_session).world.rooms ≡ (
      is_member room_topic bob_handle world_with_both.rooms
      && not (contains room_topic (room_topic ∷ []))))
    × ((leave_all bob_session).subscribed ≡ [])
leave_all-is_member_example = leave_all-is_member room_topic bob_session both_Inv.sharded

abbrev greet : ClientFrame Peer
greet = ClientFrame.publish room_topic (104 ∷ [])

greet_decodes :
    decode_lane_frame Tag.publish (room_topic.bytes ++ (104 ∷ [])) ≡ ok (greet, room_topic.bytes)
unfolding decode_lane_frame ClientFrame.decode is_lane_frame Decode.take_topic Decode.split_to
greet_decodes = refl

publish_forwards_example :
    let s' = publish_parts 1 control room_topic none (104 ∷ []) room_topic.bytes 38 bob_session in
    (s'.world.net.links 0 ≡ (
      if hears 0 bob (room_at world_with_both.rooms room_topic)
      then (deliver control
          (Deliver.new room_topic.bytes (104 ∷ []))
          (world_with_both.net.links 0)).0
      else world_with_both.net.links 0))
    × (s'.world.rooms ≡ world_with_both.rooms)
publish_forwards_example =
    publish_forwards peer_of 1 control room_topic (104 ∷ []) room_topic.bytes 38 0 bob_session
      both_Inv (omega arith) bob_is_member (unfold try_take Bucket.refill in refl)

abbrev one_slot : Slots
one_slot = acquire 1 (record { connections = 0; held = 0; refusing = 0 })

slots_bounded_example :
    (one_slot.held ≤ 1)
    × (one_slot.connections ≡ one_slot.held + one_slot.refusing)
    × (one_slot.refusing ≤ 2 ^ 32)
slots_bounded_example = slots_bounded 1 one_slot (omega arith) (acquires starts (omega arith))

abbrev forwarder : Forwarder ℕ
forwarder = record { rate = full; stats = Stats.init; sends = [] }

forward_datagram_reaches_example :
    let d = datagram room_topic (7 ∷ []) in
    let room = room_at world_with_both.rooms (record { bytes = take 32 d }) in
    let goes = is_forwarded 1 bob_handle world_with_both.rooms d forwarder in
    let r = forward_datagram (λ c d. true) 1 bob_handle world_with_both.rooms d forwarder in
    (sends_to 0 r.sends
      ≡ sends_to 0 forwarder.sends ++ (if goes && hears 0 bob room then d ∷ [] else []))
    × (r.rate ≡ (try_take 1 (length d) forwarder.rate).0)
    × (r.stats.datagrams_in ≡ bump forwarder.stats.datagrams_in)
    × (r.stats.datagrams_dropped ≡ (
        if goes then forwarder.stats.datagrams_dropped else bump forwarder.stats.datagrams_dropped))
forward_datagram_reaches_example =
    forward_datagram_reaches (λ c d. true) 1 bob_handle world_with_both.rooms
      (datagram room_topic (7 ∷ [])) forwarder peer_of 0 both_Inv

-- An unknown frame, and then the end inside a length prefix.
abbrev odd_stream : Stream
odd_stream = record { pieces = (0 ∷ 0 ∷ 0 ∷ []) ∷ (1 ∷ 99 ∷ 0 ∷ []) ∷ []; ending = End.finished }

read_loop-Ends_example :
    IsSession peer_of default_limits
      (read_loop default_limits (λ tag e. []) 9 (λ n. n) odd_stream bob_session).0
    × ((read_loop default_limits (λ tag e. []) 9 (λ n. n) odd_stream bob_session).1 ≢ panicked)
    × ((read_loop default_limits (λ tag e. []) 9 (λ n. n) odd_stream bob_session).1 ≢ out_of_fuel)
read_loop-Ends_example =
    read_loop-Ends default_limits (λ tag e. []) peer_of 9 (λ n. n) odd_stream bob_session
      (omega arith) bob_session-IsSession

read_frames-ends_example :
    ((read_frames (λ tag e. []) 9 (λ n. n) control odd_stream bob_session).1 ≢ lane_panicked)
    × ((read_frames (λ tag e. []) 9 (λ n. n) control odd_stream bob_session).1 ≢ lane_out_of_fuel)
read_frames-ends_example =
    read_frames-ends (λ tag e. []) 9 (λ n. n) control odd_stream bob_session (omega arith)
