-- ===== src/Server/Session/Lanes.antt =====
-- src/server.rs, `read_lane`: a lane stream's byte, and then its frames, one on a bulk stream.
use keep_talking_sfu.Prelude.{
  ℕ, zero, suc, ◌+◌, ◌<◌, ◌≢◌, refl, Bool, true, false, Option, none, some, length, ltb,
  if◌then◌else◌, arith,
}
use keep_talking_sfu.Prelude.Outcome.{ok, err, panic, ◌>>=◌}
use keep_talking_sfu.Prelude.Wire.{Bytes}
use keep_talking_sfu.Proto.Ids.{EndpointIds}
use keep_talking_sfu.Proto.Lane.{Lane, control, interactive, bulk, from_byte}
use keep_talking_sfu.Proto.StreamError
use keep_talking_sfu.Proto.Decode.{DecodeError, Decoded}
use keep_talking_sfu.Proto.Stream.{
  Stream, content, Read, got, ended, broken, bad_length, truncated, stuck, read_pieces, read_frame,
  read_lane_byte,
}
use keep_talking_sfu.Server.Stats.{bump}
use keep_talking_sfu.Server.Bucket.{Doubles}
use keep_talking_sfu.Server.Session.{Session, count, decode_lane_frame, publish, skip_malformed}
use keep_talking_sfu.Server.Session.LaneFrames.{lane_total}
use keep_talking_sfu.Proto.Stream.Progress.{Shrinks, read_frame-Shrinks}

-- How the reader ends: quietly, by stopping the stream with a code, or with an error of the stream.
-- The last two are a panic and the model's own.
pub data LaneEnd : Type 0 where
  quiet : LaneEnd
  stopped : ℕ → LaneEnd
  broken_lane truncated_lane : LaneEnd
  bad_lane_length : ℕ → LaneEnd
  lane_panicked lane_out_of_fuel : LaneEnd

module _ {EndpointId F : Type 0} ⦃ids : EndpointIds EndpointId⦄ ⦃f64 : Doubles F⦄
    (text : ℕ → DecodeError → Bytes) where
  -- The arms on a decoded frame of the control and interactive lanes.
  abbrev pub lane_handled :
      ℕ → Decoded (Session EndpointId F) → Session EndpointId F → Session EndpointId F × Bool
  lane_handled tag (ok s') s = (s', true)
  lane_handled tag (err e) s = (skip_malformed text tag e s, true)
  lane_handled tag panic s = (s, false)

  abbrev pub published :
      ℕ → Lane → ℕ → Bytes → Session EndpointId F → Decoded (Session EndpointId F)
  published now lane tag body s =
      decode_lane_frame tag body >>= λ (f, b). publish now lane f b (5 + length body) s

  abbrev pub after_lane_read :
      (Stream → Session EndpointId F → Session EndpointId F × LaneEnd)
      → ℕ
      → Lane
      → Read (ℕ × Bytes)
      → Session EndpointId F
      → Session EndpointId F × LaneEnd
  after_lane_read go_on now lane (got (tag, body) rest) s =
      let (s', goes_on) = lane_handled tag (published now lane tag body s) s in
      if goes_on then go_on rest s' else (s', lane_panicked)
  after_lane_read go_on now lane ended s = (s, quiet)
  after_lane_read go_on now lane broken s = (s, broken_lane)
  after_lane_read go_on now lane (bad_length n) s = (s, bad_lane_length n)
  after_lane_read go_on now lane truncated s = (s, truncated_lane)
  after_lane_read go_on now lane stuck s = (s, lane_out_of_fuel)

  -- The loop over the frames of a control or interactive lane, on fuel.
  unfoldable pub read_frames :
      ℕ → (ℕ → ℕ) → Lane → Stream → Session EndpointId F → Session EndpointId F × LaneEnd
  read_frames zero clock lane stream s = (s, lane_out_of_fuel)
  read_frames (suc fuel) clock lane stream s =
      after_lane_read (λ rest s'. read_frames fuel clock lane rest s') (clock fuel) lane
        (read_frame stream) s

  -- After the one frame of a bulk stream: `recv.read(&mut [0u8; 1])`.
  abbrev pub after_bulk : Stream → Session EndpointId F → Session EndpointId F × LaneEnd
  after_bulk rest s =
      if ltb 0 (length (read_pieces 1 rest.pieces).0)
      then (
        count (λ st. record st { bulk_stopped = bump st.bulk_stopped }) s,
        stopped StreamError.bulk_trailing,
      )
      else (s, quiet)

  abbrev pub bulk_handled :
      Stream
      → Decoded (Session EndpointId F)
      → Session EndpointId F
      → Session EndpointId F × LaneEnd
  bulk_handled rest (ok s') s = after_bulk rest s'
  bulk_handled rest (err e) s = (
    count (λ st. record st { malformed = bump st.malformed; bulk_stopped = bump st.bulk_stopped })
        s,
    stopped StreamError.malformed,
  )
  bulk_handled rest panic s = (s, lane_panicked)

  abbrev pub read_bulk :
      ℕ → Read (ℕ × Bytes) → Session EndpointId F → Session EndpointId F × LaneEnd
  read_bulk now (got (tag, body) rest) s = bulk_handled rest (published now bulk tag body s) s
  read_bulk now ended s = (s, quiet)
  read_bulk now broken s = (s, broken_lane)
  read_bulk now (bad_length n) s = (s, bad_lane_length n)
  read_bulk now truncated s = (s, truncated_lane)
  read_bulk now stuck s = (s, lane_out_of_fuel)

  -- What follows the lane's byte. One frame takes at least a byte, so the fuel is enough.
  abbrev pub on_lane :
      (ℕ → ℕ) → Option Lane → Stream → Session EndpointId F → Session EndpointId F × LaneEnd
  on_lane clock none rest s = (
    count (λ st. record st { bad_lanes = bump st.bad_lanes }) s,
    stopped StreamError.unknown_lane,
  )
  on_lane clock (some bulk) rest s = read_bulk (clock 0) (read_frame rest) s
  on_lane clock (some control) rest s =
      read_frames (suc (length (content rest))) clock control rest s
  on_lane clock (some interactive) rest s =
      read_frames (suc (length (content rest))) clock interactive rest s

  abbrev pub after_lane_byte :
      (ℕ → ℕ) → Read ℕ → Session EndpointId F → Session EndpointId F × LaneEnd
  after_lane_byte clock (got b rest) s = on_lane clock (from_byte b) rest s
  after_lane_byte clock ended s = (s, quiet)
  after_lane_byte clock broken s = (s, broken_lane)
  after_lane_byte clock (bad_length n) s = (s, bad_lane_length n)
  after_lane_byte clock truncated s = (s, truncated_lane)
  after_lane_byte clock stuck s = (s, lane_out_of_fuel)

  unfoldable pub read_lane :
      (ℕ → ℕ) → Stream → Session EndpointId F → Session EndpointId F × LaneEnd
  unfolding read_frames
  read_lane clock stream s = after_lane_byte clock (read_lane_byte stream) s

  after_lane_read_ends :
      (n : ℕ) (go_on : Stream → Session EndpointId F → Session EndpointId F × LaneEnd) (now : ℕ)
      (lane : Lane) (r : Read (ℕ × Bytes)) (s : Session EndpointId F)
      → Shrinks n r
      → ((rest : Stream) (s' : Session EndpointId F)
          → length (content rest) < n
          → ((go_on rest s').1 ≢ lane_panicked) × ((go_on rest s').1 ≢ lane_out_of_fuel))
      → ((after_lane_read go_on now lane r s).1 ≢ lane_panicked)
        × ((after_lane_read go_on now lane r s).1 ≢ lane_out_of_fuel)
  after_lane_read_ends n go_on now lane (got (tag, body) rest) s h more =
      lane_go (published now lane tag body s) (lane_total tag body now lane (5 + length body) s)
    where
      lane_go :
          (out : Decoded (Session EndpointId F))
          → out ≢ panic
          → let (s', goes_on) = lane_handled tag out s in
            let r = if goes_on then go_on rest s' else (s', lane_panicked) in
            (r.1 ≢ lane_panicked) × (r.1 ≢ lane_out_of_fuel)
      lane_go (ok s') k = more rest s' h
      lane_go (err e) k = more rest (skip_malformed text tag e s) h
      lane_go panic k = absurd (k refl)
  after_lane_read_ends n go_on now lane ended s h more = (λ e. cc, λ e. cc)
  after_lane_read_ends n go_on now lane broken s h more = (λ e. cc, λ e. cc)
  after_lane_read_ends n go_on now lane (bad_length k) s h more = (λ e. cc, λ e. cc)
  after_lane_read_ends n go_on now lane truncated s h more = (λ e. cc, λ e. cc)
  after_lane_read_ends n go_on now lane stuck s h more = absurd h

  -- With more fuel than the stream has bytes, the loop over the frames of a control or interactive
  -- lane comes to an end of the source's, whatever the bytes are: it never panics.
  pub read_frames-ends :
      (fuel : ℕ) (clock : ℕ → ℕ) (lane : Lane) (stream : Stream) (s : Session EndpointId F)
      → length (content stream) < fuel
      → ((read_frames fuel clock lane stream s).1 ≢ lane_panicked)
        × ((read_frames fuel clock lane stream s).1 ≢ lane_out_of_fuel)
  unfolding read_frames
  read_frames-ends zero clock lane stream s h = absurd (omega arith)
  read_frames-ends (suc fuel) clock lane stream s h =
      after_lane_read_ends (length (content stream))
        (λ rest s'. read_frames fuel clock lane rest s') (clock fuel) lane (read_frame stream) s
        (read_frame-Shrinks stream)
        (λ rest s' less. read_frames-ends fuel clock lane rest s' (omega arith))
