-- ===== src/Client/Frames/Reading.antt =====
-- The loop over the session stream: it depends on the stream's content alone, it comes to an end,
-- and frames that were written are taken in turn.
use keep_talking_sfu.Prelude.{
  ℕ, zero, suc, ◌+◌, ◌≤◌, ◌<◌, ◌≡◌, ◌≢◌, ◌∙◌, refl, sym, ap, Bool, Bool-cases, inl, inr, List, [],
  ◌∷◌, ◌++◌, All, length, arith, append_assoc, append-nil,
}
use keep_talking_sfu.Prelude.Outcome.{ok, err, panic}
use keep_talking_sfu.Prelude.Wire.{Bytes}
use keep_talking_sfu.Proto.Ids.{EndpointIds}
use keep_talking_sfu.Proto.Limits.{max_frame_len}
use keep_talking_sfu.Proto.Decode.{Decoded}
use keep_talking_sfu.Proto.ServerFrame.{
  ServerFrame, snapshot, joined, left, presence, deliver, error, decode, encode,
}
use keep_talking_sfu.Proto.ServerFrame.Total.{server_decode_total}
use keep_talking_sfu.Proto.ServerFrame.RoundTrip.{IsFrame}
use keep_talking_sfu.Proto.Stream.{
  Stream, content, Read, got, ended, broken, bad_length, truncated, stuck, read_frame,
}
use keep_talking_sfu.Proto.Stream.Reassembly.{whole, seen, frame_of, read_frame-frame_of}
use keep_talking_sfu.Proto.Stream.Progress.{Shrinks, read_frame-Shrinks}
use keep_talking_sfu.Proto.Stream.RoundTrip.{server_frame-read_frame}
use keep_talking_sfu.Client.Frames.{
  Pump, PumpEnd, panicked, out_of_fuel, Turn, goes_on, emits, panics, on_frame, merge, after_turn,
  after_read, pump_frames,
}
use keep_talking_sfu.Client.Frames.Merge.{in_turn}

module _ {EndpointId : Type 0} ⦃ids : EndpointIds EndpointId⦄ where
  -- The frames as they are written.
  abbrev pub encode_all : List (ServerFrame EndpointId) → Bytes
  encode_all [] = []
  encode_all (f ∷ fs) = encode f ++ encode_all fs

  abbrev pub Fits : ServerFrame EndpointId → Type 0
  Fits f = IsFrame f × (length (encode f) ≤ 4 + max_frame_len)

  -- The fuel for a turn per frame and `fuel` more.
  abbrev pub behind_all : List (ServerFrame EndpointId) → ℕ → ℕ
  behind_all [] fuel = fuel
  behind_all (f ∷ fs) fuel = suc (behind_all fs fuel)

  pub behind_all-length :
      (fs : List (ServerFrame EndpointId)) (fuel : ℕ) → behind_all fs fuel ≡ length fs + fuel
  behind_all-length [] fuel = omega arith
  behind_all-length (f ∷ fs) fuel = omega (arith, behind_all-length fs fuel)

module _ {EndpointId : Type 0} ⦃ids : EndpointIds EndpointId⦄ (accepts : ℕ → Bool) where
  after_turn-cong :
      (go go' : Pump EndpointId → Pump EndpointId × PumpEnd) (p : Pump EndpointId)
      (turn : Turn EndpointId)
      → ((q : Pump EndpointId) → go q ≡ go' q)
      → after_turn accepts go p turn ≡ after_turn accepts go' p turn
  after_turn-cong go go' p (goes_on q) h = h q
  after_turn-cong go go' p (emits f q) h = elim (Bool-cases (accepts (length q.sent))) [
    | inl e ↦ rw e (h _)
    | inr e ↦ rw e refl
  ]
  after_turn-cong go go' p panics h = refl

  after_read-seen :
      (go : Stream → Pump EndpointId → Pump EndpointId × PumpEnd) (r : Read (ℕ × Bytes))
      (p : Pump EndpointId)
      → ((s : Stream) (q : Pump EndpointId) → go s q ≡ go (whole (content s) s.ending) q)
      → after_read accepts go r p ≡ after_read accepts go (seen r) p
  after_read-seen go (got (tag, body) s) p h =
      after_turn-cong (go s) (go (whole (content s) s.ending)) p (on_frame (decode tag body) p)
        (h s)
  after_read-seen go ended p h = refl
  after_read-seen go broken p h = refl
  after_read-seen go (bad_length n) p h = refl
  after_read-seen go truncated p h = refl
  after_read-seen go stuck p h = refl

  -- However the session stream is cut into pieces, the client does the same.
  pub pump_frames-whole :
      (fuel : ℕ) (s : Stream) (p : Pump EndpointId)
      → pump_frames accepts fuel s p ≡ pump_frames accepts fuel (whole (content s) s.ending) p
  unfolding pump_frames
  pump_frames-whole zero s p = refl
  pump_frames-whole (suc fuel) s p =
      let go : Stream → Pump EndpointId → Pump EndpointId × PumpEnd =
        λ r q. pump_frames accepts fuel r q in
      let same = ap (λ b. frame_of b s.ending) (sym (append-nil (content s))) in
      after_read-seen go (read_frame s) p (pump_frames-whole fuel)
      ∙ ap (λ r. after_read accepts go r p)
          (read_frame-frame_of s ∙ same ∙ sym (read_frame-frame_of (whole (content s) s.ending)))
      ∙ sym
          (after_read-seen go (read_frame (whole (content s) s.ending)) p (pump_frames-whole fuel))

  pump_frames-read_frame :
      (fuel : ℕ) (s : Stream) (p : Pump EndpointId)
      → pump_frames accepts (suc fuel) s p
        ≡ after_read accepts (λ r q. pump_frames accepts fuel r q) (seen (read_frame s)) p
  unfolding pump_frames
  pump_frames-read_frame fuel s p =
      after_read-seen (λ r q. pump_frames accepts fuel r q) (read_frame s) p
        (pump_frames-whole fuel)

  pub pump_frames-encode_all :
      (fuel : ℕ) (fs : List (ServerFrame EndpointId)) (rest : Bytes) (s : Stream)
      (p : Pump EndpointId)
      → All Fits fs
      → content s ≡ encode_all fs ++ rest
      → pump_frames accepts (behind_all fs fuel) s p
        ≡ in_turn accepts (λ q. pump_frames accepts fuel (whole rest s.ending) q) fs p
  pump_frames-encode_all fuel [] rest s p h c =
      pump_frames-whole fuel s p ∙ ap (λ b. pump_frames accepts fuel (whole b s.ending) p) c
  pump_frames-encode_all fuel (f ∷ fs) rest s p (h, hs) c =
      let behind = encode_all fs ++ rest in
      let (q, r, d) =
        server_frame-read_frame f behind s h.0 h.1
          (c ∙ append_assoc (encode f) (encode_all fs) rest) in
      pump_frames-read_frame (behind_all fs fuel) s p
      ∙ ap (λ x. after_read accepts (λ r q. pump_frames accepts (behind_all fs fuel) r q) x p) r
      ∙ ap
          (λ x.
            after_turn accepts (pump_frames accepts (behind_all fs fuel) (whole behind s.ending)) p
              (on_frame x p))
          d
      ∙ after_turn-cong (pump_frames accepts (behind_all fs fuel) (whole behind s.ending)) _ p
          (on_frame (ok f) p)
          (λ q.
            pump_frames-encode_all fuel fs rest (whole behind s.ending) q hs (append-nil behind))

  -- The loop came to an end of the source's.
  abbrev pub Ends : Pump EndpointId × PumpEnd → Type 0
  Ends r = (r.1 ≢ panicked) × (r.1 ≢ out_of_fuel)

  on_frame_total :
      (out : Decoded (ServerFrame EndpointId)) (p : Pump EndpointId)
      → out ≢ panic
      → on_frame out p ≢ panics
  unfolding on_frame merge
  on_frame_total (ok (snapshot t more members)) p h e = ground arith
  on_frame_total (ok (deliver t payload)) p h e = cc
  on_frame_total (ok (joined t id)) p h e = cc
  on_frame_total (ok (left t id)) p h e = cc
  on_frame_total (ok (presence t id blob)) p h e = cc
  on_frame_total (ok (error t reason)) p h e = cc
  on_frame_total (err x) p h e = cc
  on_frame_total panic p h e = h refl

  after_turn-Ends :
      (go : Pump EndpointId → Pump EndpointId × PumpEnd) (p : Pump EndpointId)
      (turn : Turn EndpointId)
      → turn ≢ panics
      → ((q : Pump EndpointId) → Ends (go q))
      → Ends (after_turn accepts go p turn)
  after_turn-Ends go p (goes_on q) t h = h q
  after_turn-Ends go p (emits f q) t h = elim (Bool-cases (accepts (length q.sent))) [
    | inl e ↦ rw e (h _)
    | inr e ↦ rw e ((λ x. cc), (λ x. cc))
  ]
  after_turn-Ends go p panics t h = absurd (t refl)

  after_read-Ends :
      (go : Stream → Pump EndpointId → Pump EndpointId × PumpEnd) (n : ℕ) (r : Read (ℕ × Bytes))
      (p : Pump EndpointId)
      → Shrinks n r
      → ((rest : Stream) (q : Pump EndpointId) → length (content rest) < n → Ends (go rest q))
      → Ends (after_read accepts go r p)
  after_read-Ends go n (got (tag, body) rest) p less h =
      after_turn-Ends (go rest) p (on_frame (decode tag body) p)
        (on_frame_total (decode tag body) p (server_decode_total tag body)) (λ q. h rest q less)
  after_read-Ends go n ended p less h = ((λ x. cc), (λ x. cc))
  after_read-Ends go n broken p less h = ((λ x. cc), (λ x. cc))
  after_read-Ends go n (bad_length k) p less h = ((λ x. cc), (λ x. cc))
  after_read-Ends go n truncated p less h = ((λ x. cc), (λ x. cc))
  after_read-Ends go n stuck p less h = absurd less

  -- Whatever bytes arrive on the session stream, the client's loop over them ends without a panic,
  -- with as many turns as there are bytes and one: at the end of the stream, at an error of
  -- `read_frame`, or since the receiver is gone.
  pub pump_frames-Ends :
      (fuel : ℕ) (s : Stream) (p : Pump EndpointId)
      → length (content s) < fuel
      → Ends (pump_frames accepts fuel s p)
  unfolding pump_frames
  pump_frames-Ends zero s p h = elim h [ ]
  pump_frames-Ends (suc fuel) s p h =
      after_read-Ends (λ r q. pump_frames accepts fuel r q) (length (content s)) (read_frame s) p
        (read_frame-Shrinks s) (λ rest q less. pump_frames-Ends fuel rest q (omega (arith, less)))
