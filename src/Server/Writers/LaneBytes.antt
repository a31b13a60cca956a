-- ===== src/Server/Writers/LaneBytes.antt =====
-- What `lane_writer` puts on the stream it has open.
use keep_talking_sfu.Prelude.{
  ℕ, ◌≡◌, ◌⊎◌, ◌∙◌, true, All, refl, sym, ap, Bool-cases, inl, inr, Option, none, some, List, [],
  ◌∷◌, ◌++◌, flatten, append_assoc, append-nil, subst,
}
use keep_talking_sfu.Prelude.Wire.{Bytes}
use keep_talking_sfu.Proto.Lane.{Lane, prefix, priority}
use keep_talking_sfu.Transport.{Transport, IsTransport, Opening, opened, denied, no_credit, Opens}
use keep_talking_sfu.Server.Deliver.{Deliver, chunks, bytes_of, bytes_of-append}
use keep_talking_sfu.Server.Outbound.{Queued, release}
use keep_talking_sfu.Server.Writers.{
  closed, stalled, Written, written, failed, out_of_fuel, write_chunks, with_priority, open_lane,
  Writer, Turn, goes_on, idle, returned, stuck,
}
use keep_talking_sfu.Server.Writers.Lanes.{
  LaneWriter, write_opened, write_deliver, settle_lane, finish_stream, next_lane_turn, lane_turn,
  lane_writer,
}
use keep_talking_sfu.Server.Writers.Chunks.{Wrote, write_chunks-Wrote}
use keep_talking_sfu.Server.Writers.Failures.{Refused, RanOut, Honest, write_chunks-Honest}

abbrev pub deliveries : List (Queued Deliver) → List Deliver
deliveries [] = []
deliveries (q ∷ queue) = q.item ∷ deliveries queue

bytes_of-one :
    (ds : List Deliver) (d : Deliver) → bytes_of (ds ++ d ∷ []) ≡ bytes_of ds ++ flatten (chunks d)
bytes_of-one ds d =
    bytes_of-append ds (d ∷ []) ∙ ap (λ b. bytes_of ds ++ b) (append-nil (flatten (chunks d)))

module _ {C : Type 0} ⦃net : Transport C⦄ (lane : Lane) where
  -- The open stream carries the lane byte and these deliveries whole; without one there are none.
  abbrev pub Carries : List Deliver → Option ℕ → C → Type 0
  Carries ds none c = ds ≡ []
  Carries ds (some i) c = net.sent i c ≡ prefix lane ++ bytes_of ds

  -- What a write of one more delivery leaves, by the stream that was open before.
  abbrev Delivered : Option ℕ → List Deliver → C × Option ℕ × Written → Type 0
  Delivered before ds (c, some i, written) = Carries ds (some i) c
  Delivered before ds (c, none, written) = ⊥
  Delivered before ds (c, stream, failed closed) = Refused C before (prefix lane ++ bytes_of ds)
  Delivered before ds (c, stream, failed stalled) = RanOut C (prefix lane ++ bytes_of ds)
  Delivered before ds (c, stream, out_of_fuel) = ⊥

  Wrote-Delivered :
      (i : ℕ) (bytes : Bytes) (c : C) (ds : List Deliver) (r : C × Written)
      → net.sent i c ++ bytes ≡ prefix lane ++ bytes_of ds
      → Wrote i bytes c r
      → Honest C i (prefix lane ++ bytes_of ds) r.1
      → Delivered (some i) ds (r.0, some i, r.1)
  Wrote-Delivered i bytes c ds (c', written) e w fail = w ∙ e
  Wrote-Delivered i bytes c ds (c', failed closed) e w fail = fail
  Wrote-Delivered i bytes c ds (c', failed stalled) e w fail = inl (i, fail)
  Wrote-Delivered i bytes c ds (c', out_of_fuel) e w fail = w

  -- The same on a stream that was opened for it.
  Delivered-none :
      (i : ℕ) (ds : List Deliver) (r : C × Written)
      → Delivered (some i) ds (r.0, some i, r.1)
      → Delivered none ds (r.0, some i, r.1)
  Delivered-none i ds (c, written) h = h
  Delivered-none i ds (c, failed closed) h = inl (i, h)
  Delivered-none i ds (c, failed stalled) h = h
  Delivered-none i ds (c, out_of_fuel) h = h

module _ (C : Type 0) ⦃net : Transport C⦄ (lane : Lane) where
  -- Deliveries of which a stream carried all but the last whole, where the transport refused what was
  -- left of the last, or denied to open a stream for a single one.
  abbrev pub IsLostRun : List Deliver → Type 0
  IsLostRun ds =
      (run : List Deliver) × (d : Deliver) × (stream : Option ℕ) × (c : C) × (ds ≡ run ++ d ∷ [])
      × Carries lane run stream c
      × Refused C stream (prefix lane ++ bytes_of ds)

module _ {C : Type 0} ⦃net : Transport C⦄ (laws : IsTransport C) (lane : Lane) where
  Opens-open_lane : (r : C × Opening) → Opens r → Opens (with_priority lane r)
  Opens-open_lane (c, opened i) h = laws.same_priority i i (priority lane) c ∙ h
  Opens-open_lane (c, denied) h = tt
  Opens-open_lane (c, no_credit) h = tt

  opening-with_priority : (r : C × Opening) → (with_priority lane r).1 ≡ r.1
  opening-with_priority (c, opened i) = refl
  opening-with_priority (c, denied) = refl
  opening-with_priority (c, no_credit) = refl

  whole_first :
      (i : ℕ) (d : Deliver) (c : C)
      → net.sent i c ≡ []
      → net.sent i c ++ flatten (prefix lane ∷ chunks d) ≡ prefix lane ++ bytes_of (d ∷ [])
  whole_first i d c h =
      ap (λ b. b ++ flatten (prefix lane ∷ chunks d)) h
      ∙ ap (λ b. prefix lane ++ b) (sym (append-nil (flatten (chunks d))))

  whole_next :
      (i : ℕ) (d : Deliver) (ds : List Deliver) (c : C)
      → Carries lane ds (some i) c
      → net.sent i c ++ flatten (chunks d) ≡ prefix lane ++ bytes_of (ds ++ d ∷ [])
  whole_next i d ds c h =
      ap (λ b. b ++ flatten (chunks d)) h
      ∙ append_assoc (prefix lane) (bytes_of ds) (flatten (chunks d))
      ∙ ap (λ b. prefix lane ++ b) (sym (bytes_of-one ds d))

  write_opened-Delivered :
      (d : Deliver) (c : C) (r : C × Opening)
      → (net.open_uni c).1 ≡ r.1
      → Opens r
      → Delivered lane none (d ∷ []) (write_opened lane d r)
  write_opened-Delivered d before (c, opened i) e h =
      Delivered-none lane i (d ∷ []) (write_chunks i (prefix lane ∷ chunks d) c) (
        Wrote-Delivered lane i (flatten (prefix lane ∷ chunks d)) c (d ∷ [])
          (write_chunks i (prefix lane ∷ chunks d) c) (whole_first i d c h)
          (write_chunks-Wrote laws i (prefix lane ∷ chunks d) c)
          (write_chunks-Honest laws i (prefix lane ++ bytes_of (d ∷ [])) (prefix lane ∷ chunks d) c
            (whole_first i d c h)))
  write_opened-Delivered d before (c, denied) e h = inr (before, e)
  write_opened-Delivered d before (c, no_credit) e h = inr (before, e)

  write_deliver-Delivered :
      (d : Deliver) (ds : List Deliver) (stream : Option ℕ) (c : C)
      → Carries lane ds stream c
      → Delivered lane stream (ds ++ d ∷ []) (write_deliver lane d stream c)
  unfolding write_deliver open_lane
  write_deliver-Delivered d ds none c h = rw h (
      write_opened-Delivered d c (with_priority lane (net.open_uni c))
        (sym (opening-with_priority (net.open_uni c)))
        (Opens-open_lane (net.open_uni c) (laws.opens c)))
  write_deliver-Delivered d ds (some i) c h =
      Wrote-Delivered lane i (flatten (chunks d)) c (ds ++ d ∷ []) (write_chunks i (chunks d) c)
        (whole_next i d ds c h) (write_chunks-Wrote laws i (chunks d) c)
        (write_chunks-Honest laws i (prefix lane ++ bytes_of (ds ++ d ∷ [])) (chunks d) c
          (whole_next i d ds c h))

module _ {EndpointId C : Type 0} ⦃net : Transport C⦄ (lane : Lane) where
  -- Once the queue is drained, the open stream carries the last deliveries, behind the runs of
  -- deliveries that ended with one that the transport refused. The writer returns early only where
  -- the connection is closed or the transport ran out of time.
  abbrev pub LaneEnded : List Deliver → LaneWriter EndpointId C × Turn → Type 0
  LaneEnded ds (l, idle) =
      (runs : List (List Deliver)) × (carried : List Deliver) × All (IsLostRun C lane) runs
      × (ds ≡ flatten runs ++ carried)
      × Carries lane carried l.stream l.writer.conn
  LaneEnded ds (l, returned) =
      (net.is_closed l.writer.conn ≡ true) ⊎ ((bytes : Bytes) × RanOut C bytes)
  LaneEnded ds (l, goes_on) = ⊥
  LaneEnded ds (l, stuck) = ⊥

  LaneEnded-behind :
      (front ds : List Deliver) (r : LaneWriter EndpointId C × Turn)
      → IsLostRun C lane front
      → LaneEnded ds r
      → LaneEnded (front ++ ds) r
  LaneEnded-behind front ds (l, idle) lost (runs, carried, all, e, h) = (
    front ∷ runs,
    carried,
    (lost, all),
    ap (λ x. front ++ x) e ∙ sym (append_assoc front (flatten runs) carried),
    h,
  )
  LaneEnded-behind front ds (l, returned) lost h = h
  LaneEnded-behind front ds (l, goes_on) lost h = h
  LaneEnded-behind front ds (l, stuck) lost h = h

  next_lane_turn-LaneEnded :
      (go : LaneWriter EndpointId C → LaneWriter EndpointId C × Turn) (stream : Option ℕ)
      (ds rest : List Deliver) (w : Writer EndpointId C) (r : C × Option ℕ × Written)
      → (Refused C stream (prefix lane ++ bytes_of ds) → IsLostRun C lane ds)
      → Delivered lane stream ds r
      → ((es : List Deliver) (l : LaneWriter EndpointId C)
          → Carries lane es l.stream l.writer.conn
          → LaneEnded (es ++ rest) (go l))
      → LaneEnded (ds ++ rest) (
          next_lane_turn go
            (settle_lane r.2 (record { writer = record w { conn = r.0 }; stream = r.1 })))
  next_lane_turn-LaneEnded go before ds rest w (c, some i, written) lost h go_on = go_on ds _ h
  next_lane_turn-LaneEnded go before ds rest w (c, none, written) lost h go_on = absurd h
  next_lane_turn-LaneEnded go before ds rest w (c, stream, failed closed) lost h go_on =
      elim (Bool-cases (net.is_closed c)) [
        | inl e ↦ rw e (inl e)
        | inr e ↦ rw e (
            LaneEnded-behind ds rest (go (record { writer = record w { conn = c }; stream = none }))
              (lost h) (go_on [] (record { writer = record w { conn = c }; stream = none }) refl))
      ]
  next_lane_turn-LaneEnded go before ds rest w (c, stream, failed stalled) lost h go_on =
      inr (prefix lane ++ bytes_of ds, h)
  next_lane_turn-LaneEnded go before ds rest w (c, some i, out_of_fuel) lost h go_on = absurd h
  next_lane_turn-LaneEnded go before ds rest w (c, none, out_of_fuel) lost h go_on = absurd h

module _ {EndpointId C : Type 0} ⦃net : Transport C⦄ (laws : IsTransport C) (lane : Lane) where
  finish_stream-Carries :
      (ds : List Deliver) (w : Writer EndpointId C) (stream : Option ℕ)
      → Carries lane ds stream w.conn
      → LaneEnded lane ds (finish_stream (record { writer = w; stream = stream }), idle)
  finish_stream-Carries ds w none h = ([], ds, tt, refl, h)
  finish_stream-Carries ds w (some i) h = ([], ds, tt, refl, laws.same_finish i i w.conn ∙ h)

  -- `lane_writer` over the deliveries of its queue returns. If it drained the queue, the queue is some
  -- runs of deliveries and then the last ones, in order: the stream that it has open carries the
  -- lane's byte and the last ones whole, and without an open stream there are none. Of each run, a
  -- stream carried the lane's byte and all but the last delivery whole, and the transport refused what
  -- was left of the last one, or denied a new stream for it. If it returned before, the connection is
  -- closed, or a write or an opening ran out of time. The transport takes some bytes with each write
  -- that succeeds and none with one that fails or times out, a new stream is empty, and setting a
  -- priority or finishing sends nothing.
  pub lane_writer_lem :
      (queue : List (Queued Deliver)) (ds : List Deliver) (l : LaneWriter EndpointId C)
      → Carries lane ds l.stream l.writer.conn
      → LaneEnded lane (ds ++ deliveries queue) (lane_writer lane queue l)
  unfolding lane_writer lane_turn
  lane_writer_lem [] ds l h = rw (append-nil ds) (finish_stream-Carries ds l.writer l.stream h)
  lane_writer_lem (q ∷ queue) ds l h =
      subst (λ x. LaneEnded lane x (lane_writer lane (q ∷ queue) l))
        (append_assoc ds (q.item ∷ []) (deliveries queue))
        (next_lane_turn-LaneEnded lane (λ k. lane_writer lane queue k) l.stream (ds ++ q.item ∷ [])
          (deliveries queue) (record l.writer { out = release q.size l.writer.out })
          (write_deliver lane q.item l.stream l.writer.conn)
          (λ refusal. (ds, q.item, l.stream, l.writer.conn, refl, h, refusal))
          (write_deliver-Delivered laws lane q.item ds l.stream l.writer.conn h)
          (λ es k carries. lane_writer_lem queue es k carries))
