-- ===== src/Server/Writers/Lanes.antt =====
-- src/server.rs, `lane_writer`: the deliveries of a lane onto a stream that is opened when needed.
use keep_talking_sfu.Prelude.{ℕ, Option, none, some, List, [], ◌∷◌, if◌then◌else◌}
use keep_talking_sfu.Proto.Lane.{Lane, prefix}
use keep_talking_sfu.Transport.{Transport, Opening, opened, denied, no_credit}
use keep_talking_sfu.Server.Deliver.{Deliver, chunks}
use keep_talking_sfu.Server.Outbound.{Queued, release}
use keep_talking_sfu.Server.Writers.{
  closed, stalled, Written, written, failed, out_of_fuel, write_chunks, open_lane, Writer,
  stalled_writer, Turn, goes_on, idle, returned, stuck,
}

-- The writer of a lane, with the stream that it has open.
pub record LaneWriter (EndpointId C : Type 0) : Type 0 where
  pub writer : Writer EndpointId C
  pub stream : Option ℕ

module _ {C : Type 0} ⦃net : Transport C⦄ (lane : Lane) where
  -- Both arms on `stream.as_mut()`: the connection, the stream kept, and what came of the write.
  abbrev pub write_opened : Deliver → C × Opening → C × Option ℕ × Written
  write_opened d (c, opened i) =
      let (c', result) = write_chunks i (prefix lane ∷ chunks d) c in (c', some i, result)
  write_opened d (c, denied) = (c, none, failed closed)
  write_opened d (c, no_credit) = (c, none, failed stalled)

  unfoldable pub write_deliver : Deliver → Option ℕ → C → C × Option ℕ × Written
  write_deliver d (some i) c =
      let (c', result) = write_chunks i (chunks d) c in (c', some i, result)
  write_deliver d none c = write_opened d (open_lane lane c)

module _ {EndpointId C : Type 0} ⦃net : Transport C⦄ where
  -- The match on the result.
  abbrev pub settle_lane : Written → LaneWriter EndpointId C → LaneWriter EndpointId C × Turn
  settle_lane written l = (l, goes_on)
  settle_lane (failed closed) l =
      if net.is_closed l.writer.conn then (l, returned) else (record l { stream = none }, goes_on)
  settle_lane (failed stalled) l = (record l { writer = stalled_writer l.writer }, returned)
  settle_lane out_of_fuel l = (l, stuck)

  -- `send.finish()` on the stream that is open.
  abbrev pub finish_stream : LaneWriter EndpointId C → LaneWriter EndpointId C
  finish_stream l = record l {
    writer = record l.writer {
      conn = elim l.stream [ none ↦ l.writer.conn | some i ↦ (net.finish i l.writer.conn).0 ];
    };
  }

  abbrev pub next_lane_turn :
      (LaneWriter EndpointId C → LaneWriter EndpointId C × Turn)
      → LaneWriter EndpointId C × Turn
      → LaneWriter EndpointId C × Turn
  next_lane_turn go_on (l, goes_on) = go_on l
  next_lane_turn go_on (l, turn) = (l, turn)

module _ {EndpointId C : Type 0} ⦃net : Transport C⦄ (lane : Lane) where
  -- One turn of `lane_writer` on a delivery that `recv` gave.
  unfoldable pub lane_turn :
      Queued Deliver → LaneWriter EndpointId C → LaneWriter EndpointId C × Turn
  lane_turn q l =
      let (conn, stream, result) = write_deliver lane q.item l.stream l.writer.conn in
      settle_lane result (record {
        writer = record l.writer { conn = conn; out = release q.size l.writer.out };
        stream = stream;
      })

  -- The deliveries that `recv` gives, in order, until every handle of the queue is gone.
  unfoldable pub lane_writer :
      List (Queued Deliver) → LaneWriter EndpointId C → LaneWriter EndpointId C × Turn
  lane_writer [] l = (finish_stream l, idle)
  lane_writer (q ∷ queue) l = next_lane_turn (λ k. lane_writer queue k) (lane_turn q l)
