-- ===== src/Server/Session/Reading.antt =====
-- src/server.rs, `Session::read_loop`: the frames of a session stream, one after the other.
use keep_talking_sfu.Prelude.{
  ℕ, zero, suc, ◌+◌, ◌<◌, ◌≡◌, ◌≢◌, refl, Bool, true, false, length, if◌then◌else◌, arith,
}
use keep_talking_sfu.Prelude.Outcome.{ok, err, panic}
use keep_talking_sfu.Prelude.Wire.{Bytes}
use keep_talking_sfu.Proto.Ids.{EndpointIds}
use keep_talking_sfu.Proto.Decode.{DecodeError, Decoded}
use keep_talking_sfu.Proto.ClientFrame.{ClientFrame, decode}
use keep_talking_sfu.Proto.ClientFrame.Canonical.{client_decode_total}
use keep_talking_sfu.Proto.Stream.{
  Stream, content, Read, got, ended, broken, bad_length, truncated, stuck, read_frame,
}
use keep_talking_sfu.Proto.Stream.Progress.{Shrinks, read_frame-Shrinks}
use keep_talking_sfu.Server.Limits.{Limits}
use keep_talking_sfu.Server.Bucket.{Doubles}
use keep_talking_sfu.Server.Session.{Session, handle_frame, skip_malformed, answer, count}
use keep_talking_sfu.Server.Session.Subscriptions.{IsSession, handle_frame-IsSession}

-- How the loop ends: with the stream, with an error of `read_frame`, or with a panic of a handler.
-- The last one is the model's own.
pub data LoopEnd : Type 0 where
  done : LoopEnd
  broken_stream truncated_frame : LoopEnd
  bad_frame_length : ℕ → LoopEnd
  panicked out_of_fuel : LoopEnd

module _ {EndpointId F : Type 0} ⦃ids : EndpointIds EndpointId⦄ ⦃f64 : Doubles F⦄
    (limits : Limits F) (text : ℕ → DecodeError → Bytes) where
  -- The arms on a decoded frame: the session goes on, or panics.
  abbrev pub handled :
      ℕ
      → ℕ
      → ℕ
      → Decoded (ClientFrame EndpointId)
      → Session EndpointId F
      → Session EndpointId F × Bool
  handled now tag frame_len (ok frame) s = (handle_frame limits now frame frame_len s, true)
  handled now tag frame_len (err e) s = (skip_malformed text tag e s, true)
  handled now tag frame_len panic s = (s, false)

  -- One turn of the loop on what `read_frame` gave; `go_on` is the rest of the loop.
  abbrev pub after_read :
      (Stream → Session EndpointId F → Session EndpointId F × LoopEnd)
      → ℕ
      → Read (ℕ × Bytes)
      → Session EndpointId F
      → Session EndpointId F × LoopEnd
  after_read go_on now (got (tag, body) rest) s =
      let (s', goes_on) = handled now tag (5 + length body) (decode tag body) s in
      if goes_on then go_on rest s' else (s', panicked)
  after_read go_on now ended s = (s, done)
  after_read go_on now broken s = (s, broken_stream)
  after_read go_on now (bad_length n) s = (s, bad_frame_length n)
  after_read go_on now truncated s = (s, truncated_frame)
  after_read go_on now stuck s = (s, out_of_fuel)

  -- The loop on fuel; `clock` is the reading of the clock at each turn.
  unfoldable pub read_loop :
      ℕ → (ℕ → ℕ) → Stream → Session EndpointId F → Session EndpointId F × LoopEnd
  read_loop zero clock stream s = (s, out_of_fuel)
  read_loop (suc fuel) clock stream s =
      after_read (λ rest s'. read_loop fuel clock rest s') (clock fuel) (read_frame stream) s

  module _ (peer_of : ℕ → EndpointId) where
    -- The loop came to an end of the source's, and left the session well formed.
    abbrev pub Ends : Session EndpointId F × LoopEnd → Type 0
    Ends r = IsSession peer_of limits r.0 × (r.1 ≢ panicked) × (r.1 ≢ out_of_fuel)

    skip-IsSession :
        (tag : ℕ) (e : DecodeError) (s : Session EndpointId F)
        → IsSession peer_of limits s
        → IsSession peer_of limits (skip_malformed text tag e s)
    unfolding skip_malformed answer count
    skip-IsSession tag e s v = record {
      rooms = v.rooms;
      auth = v.auth;
      few = v.few;
      unique = v.unique;
      no_zero = v.no_zero;
    }

    handled-IsSession :
        (now tag n : ℕ) (out : Decoded (ClientFrame EndpointId)) (s : Session EndpointId F)
        → out ≢ panic
        → IsSession peer_of limits s
        → IsSession peer_of limits (handled now tag n out s).0
          × ((handled now tag n out s).1 ≡ true)
    handled-IsSession now tag n (ok f) s h v =
        (handle_frame-IsSession peer_of limits now n f s v, refl)
    handled-IsSession now tag n (err e) s h v = (skip-IsSession tag e s v, refl)
    handled-IsSession now tag n panic s h v = absurd (h refl)

    after_read-Ends :
        (n : ℕ) (go_on : Stream → Session EndpointId F → Session EndpointId F × LoopEnd) (now : ℕ)
        (r : Read (ℕ × Bytes)) (s : Session EndpointId F)
        → Shrinks n r
        → ((rest : Stream) (s' : Session EndpointId F)
            → length (content rest) < n
            → IsSession peer_of limits s'
            → Ends (go_on rest s'))
        → IsSession peer_of limits s
        → Ends (after_read go_on now r s)
    after_read-Ends n go_on now (got (tag, body) rest) s h more v =
        let (v', goes) =
          handled-IsSession now tag (5 + length body) (decode tag body) s
            (client_decode_total tag body) v in
        rw goes (more rest _ h v')
    after_read-Ends n go_on now ended s h more v = (v, λ e. cc, λ e. cc)
    after_read-Ends n go_on now broken s h more v = (v, λ e. cc, λ e. cc)
    after_read-Ends n go_on now (bad_length k) s h more v = (v, λ e. cc, λ e. cc)
    after_read-Ends n go_on now truncated s h more v = (v, λ e. cc, λ e. cc)
    after_read-Ends n go_on now stuck s h more v = absurd h

    -- With more fuel than the stream has bytes, whatever they are and however they arrive, the loop
    -- comes to an end of the source's, never by a panic, and the session that was well formed still is.
    pub read_loop-Ends :
        (fuel : ℕ) (clock : ℕ → ℕ) (stream : Stream) (s : Session EndpointId F)
        → length (content stream) < fuel
        → IsSession peer_of limits s
        → IsSession peer_of limits (read_loop fuel clock stream s).0
          × ((read_loop fuel clock stream s).1 ≢ panicked)
          × ((read_loop fuel clock stream s).1 ≢ out_of_fuel)
    unfolding read_loop
    read_loop-Ends zero clock stream s h v = absurd (omega arith)
    read_loop-Ends (suc fuel) clock stream s h v =
        after_read-Ends (length (content stream)) (λ rest s'. read_loop fuel clock rest s')
          (clock fuel) (read_frame stream) s (read_frame-Shrinks stream)
          (λ rest s' less v'. read_loop-Ends fuel clock rest s' (omega arith) v') v
