-- ===== src/Server/Connection.antt =====
-- src/server.rs, `serve_connection`: a connection from its session stream to its teardown. The tasks
-- beside the session's loop (the lane readers, the datagram loop, the writers) and the other
-- connections act between its turns, and are not part of this run.
pub mod Membership
pub mod Served
use keep_talking_sfu.Prelude.{ℕ, zero, suc, List, [], ◌++◌, length, if◌then◌else◌}
use keep_talking_sfu.Prelude.Wire.{Bytes, ascii}
use keep_talking_sfu.Info.Text.{decimal}
use keep_talking_sfu.Proto.Ids.{EndpointIds}
use keep_talking_sfu.Proto.Close
use keep_talking_sfu.Proto.Decode.{DecodeError}
use keep_talking_sfu.Proto.Stream.{Stream, content}
use keep_talking_sfu.Server.Bucket.{Doubles}
use keep_talking_sfu.Server.Bucket
use keep_talking_sfu.Server.Limits.{Limits}
use keep_talking_sfu.Server.Outbound.{close_conn, drop_queues}
use keep_talking_sfu.Server.Outbound
use keep_talking_sfu.Server.Stats.{Stats, bump}
use keep_talking_sfu.Server.World.{Handle, Net, on_link}
use keep_talking_sfu.Server.Rooms.{World}
use keep_talking_sfu.Server.Session.{Session, count, leave_all}
use keep_talking_sfu.Server.Session.Reading.{
  LoopEnd, done, broken_stream, truncated_frame, bad_frame_length, panicked, out_of_fuel, read_loop,
}

-- `accept_bi` within `stream_open_timeout`.
pub data SessionOpening : Type 0 where
  opened : Stream → SessionOpening
  no_session too_late : SessionOpening

-- `FrameLengthError` as text.
abbrev pub length_error : ℕ → Bytes
length_error n = ascii "frame length " ++ (decimal n ++ ascii " out of range")

module _ {EndpointId : Type 0} where
  -- `conn.close(..)` on the connection of a handle.
  unfoldable pub close_link : ℕ → ℕ → Bytes → World EndpointId → World EndpointId
  unfolding on_link close_conn
  close_link conn code reason w = record w { net = on_link conn (close_conn code reason) w.net }

  -- A connection that the client opened no session stream on in time.
  unfoldable pub close_unopened : ℕ → World EndpointId → World EndpointId
  unfolding close_link
  close_unopened conn w = close_link conn Close.no_stream (ascii "no stream opened") (record w {
    net = record w.net { stats = record w.net.stats { no_stream = bump w.net.stats.no_stream } };
  })

module _ {EndpointId F : Type 0} where
  -- The match on the loop's result: only a bad length closes the connection.
  abbrev pub close_bad : LoopEnd → Session EndpointId F → Session EndpointId F
  close_bad (bad_frame_length n) s = record s {
    world = close_link s.handle.conn_id Close.protocol (length_error n) s.world;
  }
  close_bad done s = s
  close_bad broken_stream s = s
  close_bad truncated_frame s = s
  close_bad panicked s = s
  close_bad out_of_fuel s = s

  -- `if budget.overflowed.load(..)`
  unfoldable pub count_slow : Session EndpointId F → Session EndpointId F
  unfolding count
  count_slow s =
      if (s.world.net.links s.handle.conn_id).overflowed
      then count (λ st. record st { slow_consumers = bump st.slow_consumers }) s
      else s

  -- `drop(session)`, with the last handle of the connection's queues.
  unfoldable pub drop_session : Session EndpointId F → Session EndpointId F
  unfolding on_link drop_queues
  drop_session s = record s {
    world = record s.world { net = on_link s.handle.conn_id drop_queues s.world.net };
  }

module _ {EndpointId F : Type 0} ⦃ids : EndpointIds EndpointId⦄ ⦃f64 : Doubles F⦄ where
  -- Behind the loop. A panic would end the task before.
  unfoldable pub end_session : Session EndpointId F × LoopEnd → Session EndpointId F
  unfolding leave_all drop_session close_link count_slow
  end_session (s, panicked) = s
  end_session (s, out_of_fuel) = s
  end_session (s, result) = count_slow (close_bad result (drop_session (leave_all s)))

  -- The session with its queues, before its loop.
  unfoldable pub new_session :
      Limits F → ℕ → Handle EndpointId → World EndpointId → Session EndpointId F
  unfolding on_link
  new_session limits now handle w = record {
    handle = handle;
    subscribed = [];
    join_rate = Bucket.new limits.join_rate now;
    publish_rate = Bucket.new limits.publish_rate now;
    world = record w {
      net =
          on_link handle.conn_id (λ _. Outbound.new limits.outbox_bytes limits.bulk_outbox_bytes)
            w.net;
    };
  }

  -- The loop gets a turn per byte of the stream and one.
  unfoldable pub serve_connection :
      Limits F
      → (ℕ → DecodeError → Bytes)
      → (ℕ → ℕ)
      → SessionOpening
      → Handle EndpointId
      → World EndpointId
      → World EndpointId
  unfolding close_unopened
  serve_connection limits text clock (opened stream) handle w =
      let start = new_session limits (clock (suc (length (content stream)))) handle w in
      (end_session (read_loop limits text (suc (length (content stream))) clock stream start)).world
  serve_connection limits text clock no_session handle w = w
  serve_connection limits text clock too_late handle w = close_unopened handle.conn_id w
