-- ===== src/EndToEnd/Inbox.antt =====
-- The frames that a client hands out are the events that the SFU queued for its session.
use keep_talking_sfu.Prelude.{
  ℕ, suc, ◌+◌, ◌-◌, ◌*◌, ◌<◌, ◌≤◌, ◌≡◌, ◌∙◌, refl, sym, ap, Bool, true, false, List, [], ◌∷◌, ◌++◌,
  All, map, length, flatten, arith, append_assoc, append-nil, length-append, lookup, remove,
  All-append,
}
use keep_talking_sfu.Prelude.Wire.{Bytes}
use keep_talking_sfu.Proto.Stream.RoundTrip.{length-encode}
use keep_talking_sfu.Proto.ServerFrame.RoundTrip.{tag_of, body_of, encode-eq}
use keep_talking_sfu.Proto.Ids.{EndpointIds}
use keep_talking_sfu.Proto.Limits.{max_frame_len, max_members_per_topic}
use keep_talking_sfu.Proto.Topic.{Topic}
use keep_talking_sfu.Proto.Snapshot.Chunks.{encode_snapshot-parts}
use keep_talking_sfu.Proto.ServerFrame.{
  Member, ServerFrame, snapshot, joined, left, presence, deliver, error, encode,
}
use keep_talking_sfu.Proto.Stream.{Stream, content, finished}
use keep_talking_sfu.Proto.Stream.Reassembly.{whole}
use keep_talking_sfu.Client.Frames.{Pump, PumpEnd, stream_ended, on_frame, pump_frames}
use keep_talking_sfu.Client.Frames.Merge.{in_turn, in_turn-chunk_frames}
use keep_talking_sfu.Client.Frames.Reading.{
  encode_all, Fits, behind_all-length, pump_frames-encode_all,
}
use keep_talking_sfu.Server.Limits.{Limits}
use keep_talking_sfu.Server.Writers.Sessions.{item_chunks}
use keep_talking_sfu.Server.Outbound.{SessionItem}
use keep_talking_sfu.Transport.{Transport, IsTransport}
use keep_talking_sfu.Server.Outbound.{Queued}
use keep_talking_sfu.Server.Writers.{Writer, Turn, goes_on, idle, returned, stuck}
use keep_talking_sfu.Server.Writers.Sessions.{session_writer}
use keep_talking_sfu.Server.Writers.SessionBytes.{session_bytes, Ended, session_writer_lem}
use keep_talking_sfu.Proto.Stream.{read_frame, read_exact, read_pieces}
use keep_talking_sfu.EndToEnd.Session.{
  item_of, IsEvent, parts_of, frames_of, all_frames, frames_of-item_chunks,
}

-- The receiver stays.
abbrev pub always : ℕ → Bool
always n = true

module _ {EndpointId : Type 0} where
  -- Nothing waits to be merged.
  abbrev pub received : List (ServerFrame EndpointId) → Pump EndpointId
  received events = record { partial = []; sent = events; skipped = 0 }

  abbrev pub items : List (Queued (SessionItem EndpointId)) → List (SessionItem EndpointId)
  items [] = []
  items (q ∷ queue) = q.item ∷ items queue

module _ {EndpointId F : Type 0} ⦃ids : EndpointIds EndpointId⦄ (limits : Limits F) where
  in_turn-snapshot :
      (go : Pump EndpointId → Pump EndpointId × PumpEnd) (t : Topic) (ms : List (Member EndpointId))
      (fs sent : List (ServerFrame EndpointId))
      → length ms ≤ 2 * max_members_per_topic
      → in_turn always go (frames_of limits (snapshot t false ms) ++ fs) (received sent)
        ≡ in_turn always go fs (received (sent ++ snapshot t false ms ∷ []))
  unfolding lookup remove
  in_turn-snapshot go t ms fs sent few =
      let (bytes, all, more, within) =
        encode_snapshot-parts t ms limits.snapshot_chunk_entries limits.snapshot_chunk_bytes in
      in_turn-chunk_frames always go t (parts_of limits ms) (received sent) (received sent) fs more
        (omega (arith, ap length all))
      ∙ ap (λ xs. in_turn always go fs (received (sent ++ snapshot t false xs ∷ []))) all

  -- The frames of an event are that event for the receiver.
  in_turn-frames_of :
      (go : Pump EndpointId → Pump EndpointId × PumpEnd) (f : ServerFrame EndpointId)
      (fs sent : List (ServerFrame EndpointId))
      → IsEvent f
      → in_turn always go (frames_of limits f ++ fs) (received sent)
        ≡ in_turn always go fs (received (sent ++ f ∷ []))
  unfolding on_frame
  in_turn-frames_of go (snapshot t more ms) fs sent (h, last, few, blobs) =
      rw last (in_turn-snapshot go t ms fs sent few)
  in_turn-frames_of go (joined t id) fs sent h = refl
  in_turn-frames_of go (left t id) fs sent h = refl
  in_turn-frames_of go (presence t id blob) fs sent h = refl
  in_turn-frames_of go (deliver t payload) fs sent h = absurd h
  in_turn-frames_of go (error t reason) fs sent h = refl

  in_turn-all_frames :
      (go : Pump EndpointId → Pump EndpointId × PumpEnd)
      (events sent : List (ServerFrame EndpointId))
      → All IsEvent events
      → in_turn always go (all_frames limits events) (received sent)
        ≡ go (received (sent ++ events))
  in_turn-all_frames go [] sent h = rw (append-nil sent) refl
  in_turn-all_frames go (f ∷ fs) sent (h, hs) =
      in_turn-frames_of go f (all_frames limits fs) sent h
      ∙ in_turn-all_frames go fs (sent ++ f ∷ []) hs
      ∙ ap (λ xs. go (received xs)) (append_assoc sent (f ∷ []) fs)

  encode_all-append :
      (fs gs : List (ServerFrame EndpointId))
      → encode_all (fs ++ gs) ≡ encode_all fs ++ encode_all gs
  encode_all-append [] gs = refl
  encode_all-append (f ∷ fs) gs =
      ap (λ b. encode f ++ b) (encode_all-append fs gs)
      ∙ sym (append_assoc (encode f) (encode_all fs) (encode_all gs))

  abbrev bytes_of : List (SessionItem EndpointId) → Bytes
  bytes_of [] = []
  bytes_of (i ∷ is) = flatten (item_chunks limits i) ++ bytes_of is

  session_bytes-items :
      (queue : List (Queued (SessionItem EndpointId)))
      → session_bytes limits queue ≡ bytes_of (items queue)
  session_bytes-items [] = refl
  session_bytes-items (q ∷ queue) =
      ap (λ b. flatten (item_chunks limits q.item) ++ b) (session_bytes-items queue)

  all_frames-bytes_of :
      (events : List (ServerFrame EndpointId))
      → limits.snapshot_chunk_bytes < max_frame_len
      → All IsEvent events
      → All Fits (all_frames limits events)
        × (bytes_of (map item_of events) ≡ encode_all (all_frames limits events))
  all_frames-bytes_of [] body h = (tt, refl)
  all_frames-bytes_of (f ∷ fs) body (h, hs) =
      let (now, bytes) = frames_of-item_chunks limits f body h in
      let (later, rest) = all_frames-bytes_of fs body hs in
      (
        All-append Fits (frames_of limits f) (all_frames limits fs) now later,
        ap (λ b. b ++ bytes_of (map item_of fs)) bytes
            ∙ ap (λ b. encode_all (frames_of limits f) ++ b) rest
            ∙ sym (encode_all-append (frames_of limits f) (all_frames limits fs)),
      )

  -- At the end of the stream the client stops.
  pump_frames-finished :
      (fuel : ℕ) (p : Pump EndpointId)
      → pump_frames always (suc fuel) (whole [] finished) p ≡ (p, stream_ended)
  unfolding pump_frames read_frame read_exact read_pieces
  pump_frames-finished fuel p = refl

  -- A frame has five bytes at least.
  length-encode_all :
      (fs : List (ServerFrame EndpointId)) → All Fits fs → length fs ≤ length (encode_all fs)
  length-encode_all [] h = omega arith
  length-encode_all (f ∷ fs) (h, hs) = omega (
    arith,
    length-append (encode f) (encode_all fs),
    length-encode_all fs hs,
    ap length (encode-eq f h.0),
    length-encode (tag_of f) (length (body_of f)) (body_of f),
  )

  pump_frames-events :
      (fuel : ℕ) (events : List (ServerFrame EndpointId)) (s : Stream)
      → limits.snapshot_chunk_bytes < max_frame_len
      → All IsEvent events
      → content s ≡ bytes_of (map item_of events)
      → s.ending ≡ finished
      → length (content s) < fuel
      → pump_frames always fuel s (received []) ≡ (received events, stream_ended)
  pump_frames-events fuel events s body h c e enough =
      let fs = all_frames limits events in
      let (fits, bytes) = all_frames-bytes_of events body h in
      let left : ℕ = fuel - length fs - 1 in
      let fuelled : length fs + suc left ≡ fuel =
        omega (arith, length-encode_all fs fits, ap length (c ∙ bytes)) in
      ap (λ n. pump_frames always n s (received []))
        (sym fuelled ∙ sym (behind_all-length fs (suc left)))
      ∙ pump_frames-encode_all always (suc left) fs [] s (received []) fits
          (c ∙ bytes ∙ sym (append-nil (encode_all fs)))
      ∙ in_turn-all_frames (λ q. pump_frames always (suc left) (whole [] s.ending) q) events [] h
      ∙ ap (λ x. pump_frames always (suc left) (whole [] x) (received events)) e
      ∙ pump_frames-finished left (received events)

module _ {EndpointId C F : Type 0} ⦃ids : EndpointIds EndpointId⦄ ⦃net : Transport C⦄
    (laws : IsTransport C) (limits : Limits F) where
  drained :
      (send : ℕ) (bytes : Bytes) (c : C) (r : Writer EndpointId C × Turn)
      → r.1 ≡ idle
      → Ended send bytes c r
      → net.sent send r.0.conn ≡ net.sent send c ++ bytes
  drained send bytes c (w, idle) e h = h
  drained send bytes c (w, goes_on) e h = absurd h
  drained send bytes c (w, returned) e h = cc
  drained send bytes c (w, stuck) e h = absurd h

  -- Where the session writer drained a queue of snapshots, joins, leaves, presences and errors onto
  -- a new stream, and the client reads that stream to its end in whatever pieces, the client hands
  -- out exactly these events, in order, each snapshot whole, and skips nothing. Rooms have at most
  -- twice `MAX_MEMBERS_PER_TOPIC` members, blobs at most `MAX_ANNOUNCE_LEN` bytes, the other frames
  -- fit their fields and `MAX_FRAME_LEN`, and so does the chunk size; the client's loop gets a turn
  -- per byte and one, and its receiver stays.
  pub session_writer-pump_frames :
      (events : List (ServerFrame EndpointId)) (w : Writer EndpointId C) (turns send fuel : ℕ)
      (s : Stream)
      → limits.snapshot_chunk_bytes < max_frame_len
      → All IsEvent events
      → items w.out.session ≡ map item_of events
      → net.sent send w.conn ≡ []
      → length w.out.session < turns
      → let r = session_writer limits turns send w in
        r.1 ≡ idle
        → content s ≡ net.sent send r.0.conn
        → s.ending ≡ finished
        → length (content s) < fuel
        → pump_frames always fuel s (received []) ≡ (received events, stream_ended)
  session_writer-pump_frames events w turns send fuel s body h queue new enough all c e fuelled =
      pump_frames-events limits fuel events s body h
        (c
          ∙ drained send _ w.conn (session_writer limits turns send w) all
              (session_writer_lem limits laws turns send w enough)
          ∙ ap (λ b. b ++ session_bytes limits w.out.session) new
          ∙ session_bytes-items limits w.out.session
          ∙ ap (bytes_of limits) queue)
        e fuelled
