-- ===== src/Server/Writers/SessionBytes.antt =====
-- What `session_writer` puts on the session stream, and the budget it gives back.
use keep_talking_sfu.Prelude.{
  ℕ, zero, suc, ◌<◌, ◌≡◌, ◌∙◌, refl, sym, ap, List, [], ◌∷◌, ◌++◌, length, flatten, arith,
  append_assoc, append-nil,
}
use keep_talking_sfu.Prelude.Wire.{Bytes}
use keep_talking_sfu.Proto.Ids.{EndpointIds}
use keep_talking_sfu.Transport.{Transport, IsTransport}
use keep_talking_sfu.Server.Limits.{Limits}
use keep_talking_sfu.Server.Outbound.{SessionItem, Queued, Outbound, release, close_conn}
use keep_talking_sfu.Server.Outbound.Budget.{sizes, IsCounted}
use keep_talking_sfu.Server.Writers.{
  closed, stalled, Written, written, failed, out_of_fuel, write_chunks, Writer, stalled_writer,
  Turn, goes_on, idle, returned, stuck,
}
use keep_talking_sfu.Server.Writers.Sessions.{
  item_chunks, settle, write_item, session_turn, next_turn, session_writer,
}
use keep_talking_sfu.Server.Writers.Chunks.{Wrote, write_chunks-Wrote}

module _ {EndpointId F : Type 0} ⦃ids : EndpointIds EndpointId⦄ (limits : Limits F) where
  -- The bytes of the items, in order.
  abbrev pub session_bytes : List (Queued (SessionItem EndpointId)) → Bytes
  session_bytes [] = []
  session_bytes (q ∷ queue) = flatten (item_chunks limits q.item) ++ session_bytes queue

module _ {EndpointId C : Type 0} ⦃net : Transport C⦄ where
  -- What is on the stream once the writer has returned: all of the bytes where the queue was
  -- drained, and a front of them otherwise.
  abbrev pub Ended : ℕ → Bytes → C → Writer EndpointId C × Turn → Type 0
  Ended send bytes c (w, idle) = net.sent send w.conn ≡ net.sent send c ++ bytes
  Ended send bytes c (w, returned) =
      (k rest : Bytes) × (bytes ≡ k ++ rest) × (net.sent send w.conn ≡ net.sent send c ++ k)
  Ended send bytes c (w, goes_on) = ⊥
  Ended send bytes c (w, stuck) = ⊥

  Ended-append :
      (send : ℕ) (bytes rest : Bytes) (c c' : C) (r : Writer EndpointId C × Turn)
      → net.sent send c' ≡ net.sent send c ++ bytes
      → Ended send rest c' r
      → Ended send (bytes ++ rest) c r
  Ended-append send bytes rest c c' (w, idle) grew e =
      e ∙ ap (λ b. b ++ rest) grew ∙ append_assoc (net.sent send c) bytes rest
  Ended-append send bytes rest c c' (w, returned) grew (k, rest', cut, grew') = (
    bytes ++ k,
    rest',
    ap (λ b. bytes ++ b) cut ∙ sym (append_assoc bytes k rest'),
    grew' ∙ ap (λ b. b ++ k) grew ∙ append_assoc (net.sent send c) bytes k,
  )
  Ended-append send bytes rest c c' (w, goes_on) grew e = absurd e
  Ended-append send bytes rest c c' (w, stuck) grew e = absurd e

module _ {EndpointId C : Type 0} ⦃net : Transport C⦄ where
  next_turn-Ended :
      (go : Writer EndpointId C → Writer EndpointId C × Turn) (send : ℕ) (bytes rest : Bytes)
      (c : C) (out : Outbound EndpointId) (w : Writer EndpointId C) (r : C × Written)
      → Wrote send bytes c r
      → ((d : C) → Ended send rest d (go (record w { conn = d; out = out })))
      → Ended send
          (bytes ++ rest)
          c
          (next_turn go send (settle r.1 (record w { conn = r.0; out = out })))
  unfolding stalled_writer
  next_turn-Ended go send bytes rest c out w (d, written) wrote h =
      Ended-append send bytes rest c d (go (record w { conn = d; out = out })) wrote (h d)
  next_turn-Ended go send bytes rest c out w (d, failed closed) (k, left, cut, grew) h =
      (k, left ++ rest, ap (λ b. b ++ rest) cut ∙ append_assoc k left rest, grew)
  next_turn-Ended go send bytes rest c out w (d, failed stalled) (k, left, cut, grew) h =
      (k, left ++ rest, ap (λ b. b ++ rest) cut ∙ append_assoc k left rest, grew)
  next_turn-Ended go send bytes rest c out w (d, out_of_fuel) wrote h = absurd wrote

  settle-IsCounted :
      (m held : ℕ) (r : Written) (w : Writer EndpointId C)
      → IsCounted m held w.out
      → IsCounted m held (settle r w).0.out
  unfolding stalled_writer close_conn
  settle-IsCounted m held written w v = v
  settle-IsCounted m held (failed closed) w v = v
  settle-IsCounted m held (failed stalled) w v = record {
    counted = v.counted;
    bounded = v.bounded;
    small = v.small;
  }
  settle-IsCounted m held out_of_fuel w v = v

module _ {EndpointId C F : Type 0} ⦃ids : EndpointIds EndpointId⦄ ⦃net : Transport C⦄
    (limits : Limits F) where
  module _ (laws : IsTransport C) where
    writer-Ended :
        (fuel send : ℕ) (queue : List (Queued (SessionItem EndpointId))) (w : Writer EndpointId C)
        → w.out.session ≡ queue
        → length queue < fuel
        → Ended send (session_bytes limits queue) w.conn (session_writer limits fuel send w)
    unfolding session_writer session_turn release
    writer-Ended zero send queue w e h = elim h [ ]
    writer-Ended (suc fuel) send [] w e h =
        rw e (laws.same_finish send send w.conn ∙ sym (append-nil (net.sent send w.conn)))
    writer-Ended (suc fuel) send (q ∷ queue) w e h = rw e (
        next_turn-Ended (λ v. session_writer limits fuel send v) send
          (flatten (item_chunks limits q.item)) (session_bytes limits queue) w.conn
          (release q.size (record w.out { session = queue })) w
          (write_chunks send (item_chunks limits q.item) w.conn)
          (write_chunks-Wrote laws send (item_chunks limits q.item) w.conn)
          (λ d.
            writer-Ended fuel send queue
              (record w { conn = d; out = release q.size (record w.out { session = queue }) }) refl
              (omega arith)))

    -- With a turn per item and one, `session_writer` returns. Where it drained its queue, the
    -- stream took the bytes of every item in order, a snapshot as its chunks; where a write failed
    -- or stalled, it took a front of them. The transport takes some bytes with each write that
    -- succeeds and none with one that fails or times out, and finishing a stream sends none.
    pub session_writer_lem :
        (fuel send : ℕ) (w : Writer EndpointId C)
        → length w.out.session < fuel
        → Ended send (session_bytes limits w.out.session) w.conn (session_writer limits fuel send w)
    session_writer_lem fuel send w h = writer-Ended fuel send w.out.session w refl h

  received-IsCounted :
      (m held send : ℕ) (queue : List (Queued (SessionItem EndpointId))) (w : Writer EndpointId C)
      → w.out.session ≡ queue
      → IsCounted m held w.out
      → IsCounted m held (write_item limits send queue w).0.out
  unfolding release
  received-IsCounted m held send [] w e v = v
  received-IsCounted m held send (q ∷ queue) w e v =
      settle-IsCounted {C = C} ⦃net = net⦄ m held
        (write_chunks send (item_chunks limits q.item) w.conn).1 _
        (record {
          counted = ground (arith, ap sizes e, v.counted, v.bounded, v.small);
          bounded = ground (arith, ap sizes e, v.counted, v.bounded, v.small);
          small = v.small;
        })

  -- A turn of the writer gives back exactly what the item it received had reserved, whether its
  -- write succeeds, fails or stalls: the budget goes on to count what is queued.
  pub session_turn-IsCounted :
      (m held send : ℕ) (w : Writer EndpointId C)
      → IsCounted m held w.out
      → IsCounted m held (session_turn limits send w).0.out
  unfolding session_turn
  session_turn-IsCounted m held send w v = received-IsCounted m held send w.out.session w refl v
