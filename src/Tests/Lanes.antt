-- ===== src/Tests/Lanes.antt =====
-- Runs of the theorems on the lane writers, the client's lanes and the info endpoint.
use keep_talking_sfu.Prelude.{
  ℕ, suc, ap, ◌==◌, Bool, ltb, ◌&&◌, All, ◌≡◌, ◌≢◌, refl, false, true, Option, none, some, List, [],
  ◌∷◌, drop, take, flatten, length, append-nil, arith,
}
use keep_talking_sfu.Prelude.Outcome.{ok}
use keep_talking_sfu.Prelude.Wire.{Bytes, ascii, put_u32}
use keep_talking_sfu.Proto.Decode.{frame_header}
use keep_talking_sfu.Proto.Lane.{control, bulk, prefix, priority}
use keep_talking_sfu.Proto.Topic.{Topic}
use keep_talking_sfu.Proto.ClientFrame.{ClientFrame}
use keep_talking_sfu.Proto.Stream.{End, Stream, content}
use keep_talking_sfu.Server.Stats
use keep_talking_sfu.Server.Deliver.{Deliver, chunks}
use keep_talking_sfu.Server.Deliver
use keep_talking_sfu.Server.Outbound.{Queued, release}
use keep_talking_sfu.Server.Writers.{Turn, write_chunks, write_on, skip_empty, open_lane}
use keep_talking_sfu.Server.Writers.Lanes.{LaneWriter, write_deliver, lane_turn, lane_writer}
use keep_talking_sfu.Server.Writers.LaneBytes.{LaneEnded, deliveries, lane_writer_lem}
use keep_talking_sfu.Client.LaneStream.{stream_ended, bulk_read, pump_lane}
use keep_talking_sfu.Client.LaneStream.Delivered.{delivered, tagged, always, pump_lane_bulk}
use keep_talking_sfu.Client.Requests.{SfuClient, slot, send_lane}
use keep_talking_sfu.Client.Requests.Streams.{LaneSent, send_lane_lem}
use keep_talking_sfu.EndToEnd.Lanes.{AreLost, lane_writer-pump_lane}
use keep_talking_sfu.Info.Document.{quote, sfu_alpn, sfu_info_json}
use keep_talking_sfu.Info.Document.RoundTrip.{lacks, IsValue}
use keep_talking_sfu.Info.Text.Laws.{IsPlain}
use keep_talking_sfu.Info.Text.{until}
use keep_talking_sfu.Info.Http.{
  buffer_len, read_head, info_path, request, request_of, response, check_response,
}
use keep_talking_sfu.Info.Http.Served.{IsHead, read_head_ends}
use keep_talking_sfu.Info.Http.Fetched.{fetched_info}
use keep_talking_sfu.Tests.Line.{Line, line, line_laws, fresh}
use keep_talking_sfu.Tests.Fixtures.{Peer, peers, room_topic, greeting, idle}

abbrev hi : Bytes
hi = 104 ∷ 105 ∷ []

abbrev lane_state : LaneWriter Peer Line
lane_state = record {
  writer = record { conn = fresh; out = idle; stats = Stats.init };
  stream = none;
}

abbrev queue : List (Queued Deliver)
queue = record { item = greeting; size = 39 } ∷ record { item = greeting; size = 39 } ∷ []

lane_writer_lem_example :
    LaneEnded control (deliveries queue) (lane_writer control queue lane_state)
lane_writer_lem_example = lane_writer_lem line_laws control queue [] lane_state refl

abbrev sent_pairs : List (Topic × Bytes)
sent_pairs = (room_topic, hi) ∷ (room_topic, hi) ∷ []

-- What the lane's stream, the first that is opened, holds at the end.
abbrev lane_stream : Stream
lane_stream = record {
  pieces = line.sent 1 (lane_writer control queue lane_state).0.writer.conn ∷ [];
  ending = End.finished;
}

drains :
    ((lane_writer control queue lane_state).1 ≡ Turn.idle)
    × ((lane_writer control queue lane_state).0.stream ≡ some 1)
unfolding lane_writer lane_turn write_deliver open_lane write_chunks write_on skip_empty chunks
    Deliver.new frame_header put_u32 prefix priority release
drains = (refl, refl)

lane_writer-pump_lane_example :
    (k : ℕ) × AreLost Line control (take k sent_pairs)
    × (pump_lane Peer always (length (content lane_stream)) lane_stream (delivered [])
        ≡ (delivered (tagged control (drop k sent_pairs)), stream_ended))
lane_writer-pump_lane_example =
    lane_writer-pump_lane line_laws control queue lane_state sent_pairs 1
      (length (content lane_stream)) lane_stream tt ((refl, omega arith), ((refl, omega arith), tt))
      refl refl (drains.0) (drains.1) (append-nil _) refl (omega arith)

abbrev bulk_stream : Stream
bulk_stream = record {
  pieces = prefix bulk ∷ flatten (chunks greeting) ∷ (9 ∷ []) ∷ [];
  ending = End.failed;
}

pump_lane_bulk_example :
    pump_lane Peer always 1 bulk_stream (delivered [])
    ≡ (delivered (tagged bulk ((room_topic, hi) ∷ [])), bulk_read)
pump_lane_bulk_example =
    pump_lane_bulk Peer 0 room_topic hi (9 ∷ []) bulk_stream (refl, omega arith) refl

abbrev client : SfuClient Line
client = record { conn = fresh; session = 0; control = none; interactive = none }

abbrev hello : ClientFrame Peer
hello = ClientFrame.publish room_topic hi

send_lane_lem_example :
    LaneSent control
      (line.is_closed client.conn)
      client
      (hello ∷ [])
      (send_lane control hello client)
unfolding slot
send_lane_lem_example = send_lane_lem line_laws control client hello [] tt refl

abbrev torn_request : Stream
torn_request = record { pieces = ascii "GET /kt" ∷ ascii "/sfu" ∷ []; ending = End.finished }

read_head_ends_example :
    IsHead (content torn_request) torn_request.ending (read_head (suc buffer_len) [] torn_request)
read_head_ends_example = read_head_ends torn_request

-- Ids and URLs that are their own texts.
abbrev some_id : Bytes → Option Bytes
some_id text = some text

abbrev id_text : Bytes
id_text = ascii "a1b2c3"

abbrev url_text : Bytes
url_text = ascii "https://relay.example/"

abbrev plain_test : Bytes → Bool
plain_test [] = true
plain_test (b ∷ text) = ltb b 128 && ltb 32 b && plain_test text

plain : (text : Bytes) → plain_test text ≡ true → All IsPlain text
plain [] h = tt
plain (b ∷ text) h = (ground arith, plain text (ground arith))

-- Texts of different lengths differ.
longer : (xs ys : Bytes) → (length xs == length ys) ≡ false → xs ≢ ys
longer xs ys h e = absurd (ground (arith, ap length e))

id_text-IsValue : IsValue id_text
id_text-IsValue =
    (lacks quote id_text refl, longer id_text _ refl, longer id_text _ refl, longer id_text _ refl)

url_text-IsValue : IsValue url_text
url_text-IsValue = (
  lacks quote url_text refl,
  longer url_text _ refl,
  longer url_text _ refl,
  longer url_text _ refl,
)

path_until : until (λ b. b == 63) (ascii "/kt/sfu?v=2") ≡ info_path
unfolding until
path_until = refl

fetched_info_example :
    check_response some_id some_id (
      response
        (request_of (request (ascii "/kt/sfu?v=2") (ascii "sfu.example")))
        (sfu_info_json id_text url_text (some 7842)))
    ≡ ok (record { sfu = id_text; relay = url_text; alpn = sfu_alpn; qad_port = some 7842 })
fetched_info_example =
    fetched_info some_id some_id id_text url_text (ascii "/kt/sfu?v=2") (ascii "sfu.example")
      (some 7842) id_text url_text id_text-IsValue url_text-IsValue (omega arith) refl refl
      (plain (ascii "/kt/sfu?v=2") refl) (omega arith) path_until
