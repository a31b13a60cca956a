-- ===== src/Server/Writers/Sessions.antt =====
-- src/server.rs, `session_writer`: the session items of a connection onto its session stream.
use keep_talking_sfu.Prelude.{ℕ, zero, suc, false, List, [], ◌∷◌}
use keep_talking_sfu.Prelude.Wire.{Bytes}
use keep_talking_sfu.Proto.Ids.{EndpointIds}
use keep_talking_sfu.Proto.Snapshot.{encode_snapshot}
use keep_talking_sfu.Transport.{Transport}
use keep_talking_sfu.Server.Limits.{Limits}
use keep_talking_sfu.Server.Outbound.{SessionItem, frame, snapshot, Queued, release}
use keep_talking_sfu.Server.Writers.{
  closed, stalled, Written, written, failed, out_of_fuel, write_chunks, Writer, stalled_writer,
  Turn, goes_on, idle, returned, stuck,
}

module _ {EndpointId F : Type 0} ⦃ids : EndpointIds EndpointId⦄ (limits : Limits F) where
  -- The pieces that are written for an item.
  unfoldable pub item_chunks : SessionItem EndpointId → List Bytes
  item_chunks (frame bytes) = bytes ∷ []
  item_chunks (snapshot t members) =
      encode_snapshot t members limits.snapshot_chunk_entries limits.snapshot_chunk_bytes

module _ {EndpointId C : Type 0} ⦃net : Transport C⦄ where
  abbrev pub settle : Written → Writer EndpointId C → Writer EndpointId C × Turn
  settle written w = (w, goes_on)
  settle (failed closed) w = (w, returned)
  settle (failed stalled) w = (stalled_writer w, returned)
  settle out_of_fuel w = (w, stuck)

  -- The turns while there are items; once every handle of the queue is gone, an idle writer
  -- finishes the stream. A writer that returned receives no more.
  abbrev pub next_turn :
      (Writer EndpointId C → Writer EndpointId C × Turn)
      → ℕ
      → Writer EndpointId C × Turn
      → Writer EndpointId C × Turn
  next_turn go_on send (w, goes_on) = go_on w
  next_turn go_on send (w, idle) = (record w { conn = (net.finish send w.conn).0 }, idle)
  next_turn go_on send (w, returned) =
      (record w { out = record w.out { session_open = false } }, returned)
  next_turn go_on send (w, stuck) = (w, stuck)

module _ {EndpointId C F : Type 0} ⦃ids : EndpointIds EndpointId⦄ ⦃net : Transport C⦄
    (limits : Limits F) where
  abbrev pub write_item :
      ℕ → List (Queued (SessionItem EndpointId)) → Writer EndpointId C → Writer EndpointId C × Turn
  write_item send [] w = (w, idle)
  write_item send (q ∷ queue) w =
      let (conn, result) = write_chunks send (item_chunks limits q.item) w.conn in
      let received = record w.out { session = queue } in
      settle result (record w { conn = conn; out = release q.size received })

  -- One turn of `session_writer`, from `recv` to the match on the result.
  unfoldable pub session_turn : ℕ → Writer EndpointId C → Writer EndpointId C × Turn
  session_turn send w = write_item send w.out.session w

  -- The loop on fuel, a turn per item and the last one.
  unfoldable pub session_writer : ℕ → ℕ → Writer EndpointId C → Writer EndpointId C × Turn
  session_writer zero send w = (w, stuck)
  session_writer (suc fuel) send w =
      next_turn (λ w'. session_writer fuel send w') send (session_turn send w)
