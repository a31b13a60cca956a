-- ===== src/Server/Connection/Served.antt =====
-- A connection that has been served holds no slot in any room.
use keep_talking_sfu.Prelude.{
  ℕ, zero, suc, ◌+◌, ◌<◌, ◌≡◌, ◌≢◌, ◌∙◌, refl, sym, ap, subst, true, false, Bool-cases, inl, inr,
  List, [], ◌∷◌, length, arith,
}
use keep_talking_sfu.Prelude.Outcome.{ok, err, panic}
use keep_talking_sfu.Prelude.Wire.{Bytes}
use keep_talking_sfu.Proto.Ids.{EndpointIds}
use keep_talking_sfu.Proto.Topic.{Topic}
use keep_talking_sfu.Proto.Decode.{DecodeError, Decoded}
use keep_talking_sfu.Proto.ClientFrame.{ClientFrame, decode}
use keep_talking_sfu.Proto.ClientFrame.Canonical.{client_decode_total}
use keep_talking_sfu.Proto.Stream.{
  Stream, content, Read, got, ended, broken, bad_length, truncated, stuck, read_frame,
}
use keep_talking_sfu.Proto.Stream.Progress.{Shrinks, read_frame-Shrinks}
use keep_talking_sfu.Server.Bucket.{Doubles}
use keep_talking_sfu.Server.Limits.{Limits}
use keep_talking_sfu.Server.World.{Handle}
use keep_talking_sfu.Server.Rooms.{World, is_member, leave}
use keep_talking_sfu.Server.Rooms.Invariant.{Inv, leave-Inv}
use keep_talking_sfu.Server.Session.{
  Session, answer, count, skip_malformed, rate_limited, take_publish, joined, handle_subscribe,
  handle_unsubscribe, handle_announce, handle_frame, leave_all, leave_each,
}
use keep_talking_sfu.Server.Session.Subscriptions.{IsSession, handle_frame-IsSession}
use keep_talking_sfu.Server.Session.Leaving.{leave_all-is_member}
use keep_talking_sfu.Server.Session.Reading.{
  LoopEnd, done, broken_stream, truncated_frame, bad_frame_length, panicked, out_of_fuel, handled,
  after_read, read_loop,
}
use keep_talking_sfu.Server.Connection.{
  SessionOpening, opened, no_session, too_late, close_link, close_unopened, close_bad, count_slow,
  drop_session, end_session, new_session, serve_connection,
}
use keep_talking_sfu.Server.Connection.Membership.{IsTracked, handle_frame-IsTracked}

module _ {EndpointId F : Type 0} ⦃ids : EndpointIds EndpointId⦄ ⦃f64 : Doubles F⦄
    (limits : Limits F) where
  handle_frame-handle :
      (now n : ℕ) (f : ClientFrame EndpointId) (s : Session EndpointId F)
      → (handle_frame limits now f n s).handle ≡ s.handle
  unfolding handle_frame handle_subscribe handle_unsubscribe handle_announce joined answer
      rate_limited take_publish count
  handle_frame-handle now n (ClientFrame.subscribe t) s = ground arith
  handle_frame-handle now n (ClientFrame.unsubscribe t) s = ground arith
  handle_frame-handle now n (ClientFrame.announce t blob) s = ground arith
  handle_frame-handle now n (ClientFrame.publish t payload) s = refl
  handle_frame-handle now n (ClientFrame.publish_to t to payload) s = refl

module _ {EndpointId F : Type 0} ⦃ids : EndpointIds EndpointId⦄ ⦃f64 : Doubles F⦄
    (limits : Limits F) (text : ℕ → DecodeError → Bytes) (peer_of : ℕ → EndpointId)
    (h : Handle EndpointId) where
  -- A session of this handle, well formed, with slots in its subscribed rooms only.
  abbrev Holds : Session EndpointId F → Type 0
  Holds s = IsSession peer_of limits s × IsTracked s × (s.handle ≡ h)

  skip-Holds :
      (tag : ℕ) (e : DecodeError) (s : Session EndpointId F)
      → Holds s
      → Holds (skip_malformed text tag e s)
  unfolding skip_malformed answer count
  skip-Holds tag e s (v, tracked, same) = (
    record { rooms = v.rooms; auth = v.auth; few = v.few; unique = v.unique; no_zero = v.no_zero },
    tracked,
    same,
  )

  handled-Holds :
      (now tag n : ℕ) (out : Decoded (ClientFrame EndpointId)) (s : Session EndpointId F)
      → out ≢ panic
      → Holds s
      → Holds (handled limits text now tag n out s).0
        × ((handled limits text now tag n out s).1 ≡ true)
  handled-Holds now tag n (ok f) s decoded (v, tracked, same) = (
    (
      handle_frame-IsSession peer_of limits now n f s v,
      handle_frame-IsTracked peer_of limits now n f s v tracked,
      handle_frame-handle limits now n f s ∙ same,
    ),
    refl,
  )
  handled-Holds now tag n (err e) s decoded v = (skip-Holds tag e s v, refl)
  handled-Holds now tag n panic s decoded v = absurd (decoded refl)

  -- The loop came to an end of the source's and the session is still this one.
  abbrev Kept : Session EndpointId F × LoopEnd → Type 0
  Kept r = Holds r.0 × (r.1 ≢ panicked) × (r.1 ≢ out_of_fuel)

  after_read-Kept :
      (n : ℕ) (go_on : Stream → Session EndpointId F → Session EndpointId F × LoopEnd) (now : ℕ)
      (r : Read (ℕ × Bytes)) (s : Session EndpointId F)
      → Shrinks n r
      → ((rest : Stream) (s' : Session EndpointId F)
          → length (content rest) < n
          → Holds s'
          → Kept (go_on rest s'))
      → Holds s
      → Kept (after_read limits text go_on now r s)
  after_read-Kept n go_on now (got (tag, body) rest) s less more v =
      let (v', goes) =
        handled-Holds now tag (5 + length body) (decode tag body) s (client_decode_total tag body)
          v in
      rw goes (more rest _ less v')
  after_read-Kept n go_on now ended s less more v = (v, λ e. cc, λ e. cc)
  after_read-Kept n go_on now broken s less more v = (v, λ e. cc, λ e. cc)
  after_read-Kept n go_on now (bad_length k) s less more v = (v, λ e. cc, λ e. cc)
  after_read-Kept n go_on now truncated s less more v = (v, λ e. cc, λ e. cc)
  after_read-Kept n go_on now stuck s less more v = absurd less

  read_loop-Kept :
      (fuel : ℕ) (clock : ℕ → ℕ) (stream : Stream) (s : Session EndpointId F)
      → length (content stream) < fuel
      → Holds s
      → Kept (read_loop limits text fuel clock stream s)
  unfolding read_loop
  read_loop-Kept zero clock stream s enough v = absurd (omega arith)
  read_loop-Kept (suc fuel) clock stream s enough v =
      after_read-Kept (length (content stream))
        (λ rest s'. read_loop limits text fuel clock rest s') (clock fuel) (read_frame stream) s
        (read_frame-Shrinks stream)
        (λ rest s' less v'. read_loop-Kept fuel clock rest s' (omega arith) v') v

  close_bad-rooms :
      (result : LoopEnd) (s : Session EndpointId F)
      → (close_bad result s).world.rooms ≡ s.world.rooms
  unfolding close_link
  close_bad-rooms done s = refl
  close_bad-rooms broken_stream s = refl
  close_bad-rooms truncated_frame s = refl
  close_bad-rooms (bad_frame_length n) s = refl
  close_bad-rooms panicked s = refl
  close_bad-rooms out_of_fuel s = refl

  count_slow-rooms : (s : Session EndpointId F) → (count_slow s).world.rooms ≡ s.world.rooms
  unfolding count_slow count
  count_slow-rooms s = ground arith

  torn_down :
      (result : LoopEnd) (s : Session EndpointId F)
      → result ≢ panicked
      → result ≢ out_of_fuel
      → (end_session (s, result)).world.rooms ≡ (leave_all s).world.rooms
  unfolding end_session drop_session
  torn_down done s no_panic fuel = count_slow-rooms (drop_session (leave_all s))
  torn_down broken_stream s no_panic fuel = count_slow-rooms (drop_session (leave_all s))
  torn_down truncated_frame s no_panic fuel = count_slow-rooms (drop_session (leave_all s))
  torn_down (bad_frame_length n) s no_panic fuel =
      count_slow-rooms (close_bad (bad_frame_length n) (drop_session (leave_all s)))
      ∙ close_bad-rooms (bad_frame_length n) (drop_session (leave_all s))
  torn_down panicked s no_panic fuel = absurd (no_panic refl)
  torn_down out_of_fuel s no_panic fuel = absurd (fuel refl)

  left_all :
      (t : Topic) (s : Session EndpointId F)
      → Holds s
      → is_member t h (leave_all s).world.rooms ≡ false
  left_all t s (v, tracked, same) =
      let gone = (leave_all-is_member t s v.rooms.sharded).0 in
      subst (λ g. is_member t g (leave_all s).world.rooms ≡ false) same
        (elim (Bool-cases (is_member t s.handle s.world.rooms)) [
          | inl member ↦ ground (arith, gone, member, tracked t member)
          | inr other ↦ ground (arith, gone, other)
        ])

  leave_each-Inv :
      (topics : List Topic) (w : World EndpointId)
      → peer_of h.conn_id ≡ h.peer
      → Inv peer_of w.rooms
      → Inv peer_of (leave_each h topics w).rooms
  unfolding leave_each
  leave_each-Inv [] w auth v = v
  leave_each-Inv (t ∷ topics) w auth v =
      leave_each-Inv topics (leave t h w).0 auth (leave-Inv peer_of t h w auth v)

  leave_all-Inv : (s : Session EndpointId F) → Holds s → Inv peer_of (leave_all s).world.rooms
  unfolding leave_all
  leave_all-Inv s (v, tracked, same) =
      subst (λ g. Inv peer_of (leave_each g s.subscribed s.world).rooms) (sym same)
        (leave_each-Inv s.subscribed s.world
          (ap peer_of (ap (λ g. g.conn_id) (sym same)) ∙ v.auth ∙ ap (λ g. g.peer) same) v.rooms)

  -- What a connection leaves behind in the rooms.
  abbrev pub IsGone : World EndpointId → Type 0
  IsGone w = Inv peer_of w.rooms × ((t : Topic) → is_member t h w.rooms ≡ false)

  session_ends : (r : Session EndpointId F × LoopEnd) → Kept r → IsGone (end_session r).world
  session_ends (s, result) (holds, no_panic, fuel) =
      let rooms = torn_down result s no_panic fuel in
      (
        subst (λ r. Inv peer_of r) (sym rooms) (leave_all-Inv s holds),
        λ t. ap (λ r. is_member t h r) rooms ∙ left_all t s holds,
      )

  new_session-Holds :
      (now : ℕ) (w : World EndpointId)
      → peer_of h.conn_id ≡ h.peer
      → IsGone w
      → Holds (new_session limits now h w)
  unfolding new_session
  new_session-Holds now w auth (v, absent) = (
    record { rooms = v; auth = auth; few = omega arith; unique = tt; no_zero = refl },
    (λ j member. absurd (ground (arith, member, absent j))),
    refl,
  )

  served-IsGone :
      (clock : ℕ → ℕ) (opening : SessionOpening) (w : World EndpointId)
      → peer_of h.conn_id ≡ h.peer
      → IsGone w
      → IsGone (serve_connection limits text clock opening h w)
  unfolding serve_connection close_unopened close_link
  served-IsGone clock (opened stream) w auth gone =
      let now = clock (suc (length (content stream))) in
      session_ends _ (
        read_loop-Kept (suc (length (content stream))) clock stream (new_session limits now h w)
          (omega arith) (new_session-Holds now w auth gone))
  served-IsGone clock no_session w auth gone = gone
  served-IsGone clock too_late w auth gone = gone

  -- A connection whose handle holds no slot, in well-formed rooms, holds none in any room when it
  -- has been served, and the rooms are well formed again: whether it opened its session stream or
  -- not, whatever bytes came on the stream, in whatever pieces, and however the stream ended.
  pub serve_connection_leaves :
      (clock : ℕ → ℕ) (opening : SessionOpening) (w : World EndpointId) (t : Topic)
      → peer_of h.conn_id ≡ h.peer
      → IsGone w
      → Inv peer_of (serve_connection limits text clock opening h w).rooms
        × (is_member t h (serve_connection limits text clock opening h w).rooms ≡ false)
  serve_connection_leaves clock opening w t auth gone =
      let after = served-IsGone clock opening w auth gone in (after.0, after.1 t)
