-- ===== src/Client/LaneStream/Reading.antt =====
-- The reader of a lane stream: it depends on the stream's content alone, and it comes to an end.
use keep_talking_sfu.Prelude.{
  ℕ, zero, suc, ◌<◌, ◌≡◌, ◌≢◌, ◌∙◌, refl, sym, ap, Bool, Bool-cases, inl, inr, length, arith,
  append-nil,
}
use keep_talking_sfu.Prelude.Outcome.{ok, err, panic}
use keep_talking_sfu.Prelude.Wire.{Bytes}
use keep_talking_sfu.Proto.Ids.{EndpointIds}
use keep_talking_sfu.Proto.Lane.{Lane, control, interactive, bulk}
use keep_talking_sfu.Proto.Decode.{Decoded}
use keep_talking_sfu.Proto.ServerFrame.{
  ServerFrame, snapshot, joined, left, presence, deliver, error, decode,
}
use keep_talking_sfu.Proto.ServerFrame.Total.{server_decode_total}
use keep_talking_sfu.Proto.Stream.{
  Stream, content, Read, got, ended, broken, bad_length, truncated, stuck, read_frame,
}
use keep_talking_sfu.Proto.Stream.Reassembly.{whole, seen, frame_of, read_frame-frame_of}
use keep_talking_sfu.Proto.Stream.Progress.{Shrinks, read_frame-Shrinks}
use keep_talking_sfu.Client.LaneStream.{
  LanePump, LaneEnd, panicked, out_of_fuel, LaneTurn, sends, skips, panics, skip, on_frame,
  unless_bulk, after_turn, after_read, pump_deliveries,
}

unless_bulk-cong :
    (go go' : LanePump → LanePump × LaneEnd) (lane : Lane) (p : LanePump)
    → go p ≡ go' p
    → unless_bulk go lane p ≡ unless_bulk go' lane p
unless_bulk-cong go go' control p h = h
unless_bulk-cong go go' interactive p h = h
unless_bulk-cong go go' bulk p h = refl

module _ (accepts : ℕ → Bool) where
  pub after_turn-cong :
      (go go' : LanePump → LanePump × LaneEnd) (lane : Lane) (p : LanePump) (turn : LaneTurn)
      → ((q : LanePump) → go q ≡ go' q)
      → after_turn accepts go lane p turn ≡ after_turn accepts go' lane p turn
  after_turn-cong go go' lane p (sends d) h = elim (Bool-cases (accepts (length p.deliveries))) [
    | inl e ↦ rw e (unless_bulk-cong go go' lane _ (h _))
    | inr e ↦ rw e refl
  ]
  after_turn-cong go go' lane p skips h = unless_bulk-cong go go' lane (skip p) (h _)
  after_turn-cong go go' lane p panics h = refl

module _ (EndpointId : Type 0) ⦃ids : EndpointIds EndpointId⦄ (accepts : ℕ → Bool) where
  after_read-seen :
      (go : Stream → LanePump → LanePump × LaneEnd) (lane : Lane) (r : Read (ℕ × Bytes))
      (p : LanePump)
      → ((s : Stream) (q : LanePump) → go s q ≡ go (whole (content s) s.ending) q)
      → after_read EndpointId accepts go lane r p ≡ after_read EndpointId accepts go lane (seen r) p
  after_read-seen go lane (got (tag, body) s) p h =
      after_turn-cong accepts (go s) (go (whole (content s) s.ending)) lane p
        (on_frame lane (decode {EndpointId = EndpointId} tag body)) (h s)
  after_read-seen go lane ended p h = refl
  after_read-seen go lane broken p h = refl
  after_read-seen go lane (bad_length n) p h = refl
  after_read-seen go lane truncated p h = refl
  after_read-seen go lane stuck p h = refl

  pub pump_deliveries-whole :
      (fuel : ℕ) (lane : Lane) (s : Stream) (p : LanePump)
      → pump_deliveries EndpointId accepts fuel lane s p
        ≡ pump_deliveries EndpointId accepts fuel lane (whole (content s) s.ending) p
  unfolding pump_deliveries
  pump_deliveries-whole zero lane s p = refl
  pump_deliveries-whole (suc fuel) lane s p =
      let go : Stream → LanePump → LanePump × LaneEnd =
        λ r q. pump_deliveries EndpointId accepts fuel lane r q in
      let same = ap (λ b. frame_of b s.ending) (sym (append-nil (content s))) in
      after_read-seen go lane (read_frame s) p (pump_deliveries-whole fuel lane)
      ∙ ap (λ r. after_read EndpointId accepts go lane r p)
          (read_frame-frame_of s ∙ same ∙ sym (read_frame-frame_of (whole (content s) s.ending)))
      ∙ sym (
          after_read-seen go lane (read_frame (whole (content s) s.ending)) p
            (pump_deliveries-whole fuel lane))

  pub pump_deliveries-read_frame :
      (fuel : ℕ) (lane : Lane) (s : Stream) (p : LanePump)
      → pump_deliveries EndpointId accepts (suc fuel) lane s p
        ≡ after_read EndpointId accepts
            (λ r q. pump_deliveries EndpointId accepts fuel lane r q)
            lane
            (seen (read_frame s))
            p
  unfolding pump_deliveries
  pump_deliveries-read_frame fuel lane s p =
      after_read-seen (λ r q. pump_deliveries EndpointId accepts fuel lane r q) lane (read_frame s)
        p (pump_deliveries-whole fuel lane)

  -- The loop came to an end of the source's.
  abbrev pub Ends : LanePump × LaneEnd → Type 0
  Ends r = (r.1 ≢ panicked) × (r.1 ≢ out_of_fuel)

  on_frame_total :
      (lane : Lane) (out : Decoded (ServerFrame EndpointId))
      → out ≢ panic
      → on_frame lane out ≢ panics
  unfolding on_frame
  on_frame_total lane (ok (snapshot t more members)) h e = cc
  on_frame_total lane (ok (deliver t payload)) h e = cc
  on_frame_total lane (ok (joined t id)) h e = cc
  on_frame_total lane (ok (left t id)) h e = cc
  on_frame_total lane (ok (presence t id blob)) h e = cc
  on_frame_total lane (ok (error t reason)) h e = cc
  on_frame_total lane (err x) h e = cc
  on_frame_total lane panic h e = h refl

  unless_bulk-Ends :
      (go : LanePump → LanePump × LaneEnd) (lane : Lane) (p : LanePump)
      → Ends (go p)
      → Ends (unless_bulk go lane p)
  unless_bulk-Ends go control p h = h
  unless_bulk-Ends go interactive p h = h
  unless_bulk-Ends go bulk p h = ((λ x. cc), (λ x. cc))

  after_turn-Ends :
      (go : LanePump → LanePump × LaneEnd) (lane : Lane) (p : LanePump) (turn : LaneTurn)
      → turn ≢ panics
      → ((q : LanePump) → Ends (go q))
      → Ends (after_turn accepts go lane p turn)
  after_turn-Ends go lane p (sends d) t h = elim (Bool-cases (accepts (length p.deliveries))) [
    | inl e ↦ rw e (unless_bulk-Ends go lane _ (h _))
    | inr e ↦ rw e ((λ x. cc), (λ x. cc))
  ]
  after_turn-Ends go lane p skips t h = unless_bulk-Ends go lane (skip p) (h _)
  after_turn-Ends go lane p panics t h = absurd (t refl)

  after_read-Ends :
      (go : Stream → LanePump → LanePump × LaneEnd) (n : ℕ) (lane : Lane) (r : Read (ℕ × Bytes))
      (p : LanePump)
      → Shrinks n r
      → ((rest : Stream) (q : LanePump) → length (content rest) < n → Ends (go rest q))
      → Ends (after_read EndpointId accepts go lane r p)
  after_read-Ends go n lane (got (tag, body) rest) p less h =
      after_turn-Ends (go rest) lane p (on_frame lane (decode {EndpointId = EndpointId} tag body))
        (on_frame_total lane (decode {EndpointId = EndpointId} tag body)
          (server_decode_total tag body))
        (λ q. h rest q less)
  after_read-Ends go n lane ended p less h = ((λ x. cc), (λ x. cc))
  after_read-Ends go n lane broken p less h = ((λ x. cc), (λ x. cc))
  after_read-Ends go n lane (bad_length k) p less h = ((λ x. cc), (λ x. cc))
  after_read-Ends go n lane truncated p less h = ((λ x. cc), (λ x. cc))
  after_read-Ends go n lane stuck p less h = absurd less

  pub pump_deliveries-Ends :
      (fuel : ℕ) (lane : Lane) (s : Stream) (p : LanePump)
      → length (content s) < fuel
      → Ends (pump_deliveries EndpointId accepts fuel lane s p)
  unfolding pump_deliveries
  pump_deliveries-Ends zero lane s p h = elim h [ ]
  pump_deliveries-Ends (suc fuel) lane s p h =
      after_read-Ends (λ r q. pump_deliveries EndpointId accepts fuel lane r q) (length (content s))
        lane (read_frame s) p (read_frame-Shrinks s)
        (λ rest q less. pump_deliveries-Ends fuel lane rest q (omega (arith, less)))
