-- ===== src/Tests/Clients.antt =====
-- Runs of the theorems on the writers, the client and the info endpoint.
use keep_talking_sfu.Prelude.{ℕ, ◌≡◌, ◌<◌, refl, false, List, [], ◌∷◌, All, arith}
use keep_talking_sfu.Prelude.Wire.{Bytes}
use keep_talking_sfu.Proto.Stream.{End, Stream, content}
use keep_talking_sfu.Server.Stats
use keep_talking_sfu.Server.Outbound.{Queued}
use keep_talking_sfu.Server.Writers.{Writer, write_chunks}
use keep_talking_sfu.Client.Frames.{Pump, pump_frames}
use keep_talking_sfu.Client.Frames.Reading.{pump_frames-Ends}
use keep_talking_sfu.Client.Frames.Reading
use keep_talking_sfu.Client.LaneStream.{pump_lane}
use keep_talking_sfu.Client.LaneStream.Delivered.{delivered, always, pump_lane-Ends}
use keep_talking_sfu.Client.LaneStream.Reading as LaneReading
use keep_talking_sfu.Prelude.{map, suc, length, append-nil}
use keep_talking_sfu.Prelude.Wire.{put_u32, put_u16}
use keep_talking_sfu.Proto.Decode
use keep_talking_sfu.Proto.Limits.{max_frame_len}
use keep_talking_sfu.Proto.Snapshot.{take_chunk, snapshot_parts, encode_parts, encode_snapshot}
use keep_talking_sfu.Server.Writers.{write_on, skip_empty}
use keep_talking_sfu.Server.Writers.Sessions.{item_chunks}
use keep_talking_sfu.Server.Outbound.{release}
use keep_talking_sfu.Server.Outbound
use keep_talking_sfu.Proto.ServerFrame.{ServerFrame}
use keep_talking_sfu.Proto.ServerFrame
use keep_talking_sfu.Server.Limits.{Limits, default_limits}
use keep_talking_sfu.Server.Outbound.{SessionItem, Outbound}
use keep_talking_sfu.Server.Outbound.Budget.{IsCounted}
use keep_talking_sfu.Server.Writers.{Turn}
use keep_talking_sfu.Server.Writers.Sessions.{session_turn, session_writer}
use keep_talking_sfu.Server.Writers.SessionBytes.{
  session_bytes, Ended, session_turn-IsCounted, session_writer_lem,
}
use keep_talking_sfu.EndToEnd.Session.{item_of, IsEvent}
use keep_talking_sfu.EndToEnd.Inbox.{received, session_writer-pump_frames}
use keep_talking_sfu.EndToEnd.Inbox
use keep_talking_sfu.Client.Frames.{stream_ended}
use keep_talking_sfu.Tests.Sessions.{whole_numbers}
use keep_talking_sfu.Tests.Line.{Line, line, line_laws, fresh}
use keep_talking_sfu.Tests.Fixtures.{Peer, bob, peers, room_topic, two_members, idle}

abbrev noise : Stream
noise = record { pieces = (0 ∷ 0 ∷ []) ∷ (0 ∷ 3 ∷ 33 ∷ 7 ∷ 7 ∷ 0 ∷ []) ∷ []; ending = End.failed }

abbrev empty_pump : Pump Peer
empty_pump = record { partial = []; sent = []; skipped = 0 }

pump_frames-Ends_example : Reading.Ends always (pump_frames always 9 noise empty_pump)
pump_frames-Ends_example = pump_frames-Ends always 9 noise empty_pump (omega arith)

pump_lane-Ends_example : LaneReading.Ends Peer always (pump_lane Peer always 9 noise (delivered []))
pump_lane-Ends_example = pump_lane-Ends Peer 9 noise (delivered []) (omega arith)

abbrev hi : Bytes
hi = 104 ∷ 105 ∷ []

abbrev limits : Limits ℕ
limits = default_limits

abbrev events : List (ServerFrame Peer)
events = ServerFrame.snapshot room_topic false two_members ∷ ServerFrame.left room_topic bob ∷ []

abbrev queued : SessionItem Peer → Queued (SessionItem Peer)
queued item = record { item = item; size = 10 }

-- The events wait on the session queue, and count.
abbrev full_queues : Outbound Peer
full_queues = record idle { queued = 20; session = map queued (map item_of events) }

abbrev session_state : Writer Peer Line
session_state = record { conn = fresh; out = full_queues; stats = Stats.init }

full_queues-IsCounted : IsCounted 100 0 full_queues
unfolding Outbound.new
full_queues-IsCounted = record {
  counted = omega arith;
  bounded = omega arith;
  small = (omega arith, omega arith);
}

session_turn-IsCounted_example : IsCounted 100 0 (session_turn limits 0 session_state).0.out
session_turn-IsCounted_example =
    session_turn-IsCounted limits 100 0 0 session_state full_queues-IsCounted

session_writer_lem_example :
    Ended 0
      (session_bytes limits full_queues.session)
      fresh
      (session_writer limits 3 0 session_state)
session_writer_lem_example = session_writer_lem limits line_laws 3 0 session_state (omega arith)

-- What the session stream holds at the end.
abbrev session_stream : Stream
session_stream = record {
  pieces = line.sent 0 (session_writer limits 3 0 session_state).0.conn ∷ [];
  ending = End.finished;
}

events_fit : All IsEvent events
unfolding ServerFrame.encode Decode.encode put_u32
events_fit =
    ((refl, refl, omega arith, (omega arith, (omega arith, tt))), ((refl, omega arith), tt))

drains : (session_writer limits 3 0 session_state).1 ≡ Turn.idle
unfolding session_writer session_turn write_chunks write_on skip_empty item_chunks encode_snapshot
    encode_parts snapshot_parts take_chunk ServerFrame.snapshot_entry_len
    ServerFrame.encode_snapshot_chunk ServerFrame.put_members ServerFrame.entries_len Decode.encode
    put_u32 put_u16 ServerFrame.encode release default_limits Outbound.new
drains = refl

chunks_small : limits.snapshot_chunk_bytes < max_frame_len
unfolding default_limits
chunks_small = omega arith

abbrev turns : ℕ
turns = suc (length (content session_stream))

session_writer-pump_frames_example :
    pump_frames Inbox.always turns session_stream (received []) ≡ (received events, stream_ended)
session_writer-pump_frames_example =
    session_writer-pump_frames line_laws limits events session_state 3 0 turns session_stream
      chunks_small events_fit refl refl (omega arith) drains (append-nil _) refl (omega arith)
