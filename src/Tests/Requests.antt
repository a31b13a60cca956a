-- ===== src/Tests/Requests.antt =====
-- A run of the theorem on what a client sends on a lane and the server publishes.
use keep_talking_sfu.Prelude.{
  suc, ◌≡◌, refl, none, some, List, [], ◌∷◌, All, length, append-nil, arith,
}
use keep_talking_sfu.Proto.Lane.{control, prefix, priority}
use keep_talking_sfu.Prelude.Wire.{put_u32}
use keep_talking_sfu.Proto.Decode
use keep_talking_sfu.Proto.ClientFrame.{ClientFrame, is_lane_frame, encode, topic}
use keep_talking_sfu.Proto.Stream.{End, Stream}
use keep_talking_sfu.Server.Session.Lanes.{quiet, read_lane}
use keep_talking_sfu.Client.Requests.{SfuClient, done, slot, set_slot, ensure_open, send_lane}
use keep_talking_sfu.Client.Requests.Streams.{encode_all}
use keep_talking_sfu.EndToEnd.Requests.{IsRequest, publish_all}
use keep_talking_sfu.EndToEnd.Sends.{send_all, send_all-read_lane}
use keep_talking_sfu.Tests.Line.{Line, line, line_laws, fresh}
use keep_talking_sfu.Tests.Fixtures.{Peer, alice, peers, room_topic}
use keep_talking_sfu.Tests.Sessions.{whole_numbers, bob_session}

abbrev idle_client : SfuClient Line
idle_client = record { conn = fresh; session = 0; control = none; interactive = none }

abbrev requests : List (ClientFrame Peer)
requests =
    ClientFrame.publish room_topic (104 ∷ [])
    ∷ ClientFrame.publish_to room_topic alice (105 ∷ [])
    ∷ []

requests-IsRequest : All IsRequest requests
unfolding is_lane_frame encode topic Decode.encode put_u32
requests-IsRequest = ((refl, refl, omega arith), ((refl, refl, omega arith), tt))

sends :
    ((send_all control requests idle_client).1 ≡ done)
    × (slot control (send_all control requests idle_client).0 ≡ some 1)
unfolding send_all send_lane ensure_open slot set_slot prefix priority
sends = (refl, refl)

abbrev requests_stream : Stream
requests_stream = record {
  pieces = line.sent 1 (send_all control requests idle_client).0.conn ∷ [];
  ending = End.finished;
}

send_all-read_lane_example : read_lane (λ tag e. []) (λ n. n) requests_stream bob_session ≡ (
  publish_all (λ n. n) control (suc (length (encode_all requests))) requests bob_session,
  quiet,
)
unfolding slot
send_all-read_lane_example =
    send_all-read_lane line_laws control requests idle_client 1 (λ tag e. []) (λ n. n)
      requests_stream bob_session tt requests-IsRequest refl (sends.0) (sends.1) (append-nil _) refl
