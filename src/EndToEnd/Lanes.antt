-- ===== src/EndToEnd/Lanes.antt =====
-- From the queue of a lane to the deliveries that the client hands out.
use keep_talking_sfu.Prelude.{
  ℕ, zero, suc, ◌≤◌, ◌≡◌, ◌∙◌, refl, sym, ap, none, some, List, [], ◌∷◌, ◌++◌, All, All-drop,
  length, drop, take, take-append, flatten, drop-append, subst,
}
use keep_talking_sfu.Prelude.Wire.{Bytes}
use keep_talking_sfu.Proto.Ids.{EndpointIds}
use keep_talking_sfu.Proto.Lane.{Lane, prefix}
use keep_talking_sfu.Proto.Topic.{Topic}
use keep_talking_sfu.Proto.Stream.{Stream, content, finished}
use keep_talking_sfu.Transport.{Transport, IsTransport}
use keep_talking_sfu.Server.Deliver
use keep_talking_sfu.Server.Deliver.{Deliver, bytes_of}
use keep_talking_sfu.Server.Outbound.{Queued}
use keep_talking_sfu.Server.Writers.{Turn, goes_on, idle, returned, stuck}
use keep_talking_sfu.Server.Writers.Lanes.{LaneWriter, lane_writer}
use keep_talking_sfu.Server.Writers.LaneBytes.{
  Carries, IsLostRun, LaneEnded, deliveries, lane_writer_lem,
}
use keep_talking_sfu.Client.LaneStream.{stream_ended, pump_lane}
use keep_talking_sfu.Client.LaneStream.Delivered.{
  delivers, IsSmall, tagged, IsLong, delivered, always, pump_lane-delivers,
}

drop-delivers : (k : ℕ) (ds : List (Topic × Bytes)) → drop k (delivers ds) ≡ delivers (drop k ds)
drop-delivers zero ds = refl
drop-delivers (suc k) [] = refl
drop-delivers (suc k) ((t, payload) ∷ ds) = drop-delivers k ds

take-delivers : (k : ℕ) (ds : List (Topic × Bytes)) → take k (delivers ds) ≡ delivers (take k ds)
take-delivers zero ds = refl
take-delivers (suc k) [] = refl
take-delivers (suc k) ((t, payload) ∷ ds) =
    ap (λ x. Deliver.new t.bytes payload ∷ x) (take-delivers k ds)

module _ (C : Type 0) ⦃net : Transport C⦄ (lane : Lane) where
  -- These deliveries are runs of which a stream carried all but the last delivery.
  abbrev pub AreLost : List (Topic × Bytes) → Type 0
  AreLost ds =
      (runs : List (List Deliver)) × All (IsLostRun C lane) runs × (delivers ds ≡ flatten runs)

module _ {EndpointId C : Type 0} ⦃net : Transport C⦄ (lane : Lane) where
  carried :
      (i : ℕ) (ds : List (Topic × Bytes)) (r : LaneWriter EndpointId C × Turn)
      → LaneEnded lane (delivers ds) r
      → r.1 ≡ idle
      → r.0.stream ≡ some i
      → (k : ℕ) × AreLost C lane (take k ds)
        × (net.sent i r.0.writer.conn ≡ prefix lane ++ bytes_of (delivers (drop k ds)))
  carried i ds (l, idle) (runs, last, all, e, h) turn stream =
      let before = flatten runs in
      let same =
        sym (drop-append (length before) before last refl)
        ∙ ap (drop (length before)) (sym e)
        ∙ drop-delivers (length before) ds in
      let front =
        sym (take-delivers (length before) ds)
        ∙ ap (take (length before)) e
        ∙ take-append (length before) before last refl in
      (
        length before,
        (runs, all, front),
        subst (λ o. Carries lane last o l.writer.conn) stream h
            ∙ ap (λ x. prefix lane ++ bytes_of x) same,
      )
  carried i ds (l, returned) h turn stream = cc
  carried i ds (l, goes_on) h turn stream = absurd h
  carried i ds (l, stuck) h turn stream = absurd h

module _ {EndpointId C : Type 0} ⦃ids : EndpointIds EndpointId⦄ ⦃net : Transport C⦄
    (laws : IsTransport C) where
  -- Where the writer of the control or the interactive lane drained its queue, starting without a
  -- stream, and the client reads the stream that is open at the end, in whatever pieces, the client
  -- hands out exactly the last deliveries of the queue from some point on, in order and tagged with
  -- the lane, and skips nothing. The deliveries before that point are runs: of each a stream carried
  -- all but the last delivery whole, and the transport refused what was left of the last one or denied
  -- a new stream for it. Topics have 32 bytes and payloads are within `MAX_PUBLISH_LEN`; the client's
  -- loop gets a turn per byte, and its receiver stays.
  pub lane_writer-pump_lane :
      (lane : Lane) (queue : List (Queued Deliver)) (l : LaneWriter EndpointId C)
      (ds : List (Topic × Bytes)) (i fuel : ℕ) (s : Stream)
      → IsLong lane
      → All IsSmall ds
      → deliveries queue ≡ delivers ds
      → l.stream ≡ none
      → let r = lane_writer lane queue l in
        r.1 ≡ idle
        → r.0.stream ≡ some i
        → content s ≡ net.sent i r.0.writer.conn
        → s.ending ≡ finished
        → length (content s) ≤ fuel
        → (k : ℕ) × AreLost C lane (take k ds)
          × (pump_lane EndpointId always fuel s (delivered [])
              ≡ (delivered (tagged lane (drop k ds)), stream_ended))
  lane_writer-pump_lane lane queue l ds i fuel s long small e new all stream c fin enough =
      let ended =
        lane_writer_lem laws lane queue [] l
          (subst (λ o. Carries lane [] o l.writer.conn) (sym new) refl) in
      let (k, lost, bytes) =
        carried lane i ds (lane_writer lane queue l)
          (subst (λ x. LaneEnded lane x (lane_writer lane queue l)) e ended) all stream in
      (
        k,
        lost,
        pump_lane-delivers EndpointId fuel lane (drop k ds) s long (All-drop IsSmall k ds small)
            (c ∙ bytes) fin enough,
      )
