-- ===== src/Client/LaneStream/Delivered.antt =====
-- Deliveries that were written on a lane stream come out of it, tagged with the lane.
use keep_talking_sfu.Prelude.{
  ℕ, suc, ◌+◌, ◌-◌, ◌≤◌, ◌≡◌, ◌∙◌, refl, sym, ap, Bool, true, Option-cases, inl, inr, List, [], ◌∷◌,
  ◌++◌, All, length, flatten, arith, append-nil, append_assoc, length-append,
}
use keep_talking_sfu.Prelude.Wire.{Bytes}
use keep_talking_sfu.Proto.Ids.{EndpointIds}
use keep_talking_sfu.Proto.Limits.{max_publish_len}
use keep_talking_sfu.Proto.Topic.{Topic, IsTopic}
use keep_talking_sfu.Proto.Lane.{
  Lane, control, interactive, bulk, prefix, from_byte, from_byte-byte, prefix-byte,
}
use keep_talking_sfu.Proto.ServerFrame.{ServerFrame, deliver}
use keep_talking_sfu.Proto.Stream.{
  End, finished, failed, Stream, content, Read, got, ended, broken, bad_length, truncated, stuck,
  first_byte, read_exact, read_pieces, read_frame, read_lane_byte,
}
use keep_talking_sfu.Proto.Stream.Reassembly.{whole, seen, exact_of, read_exact-exact_of}
use keep_talking_sfu.Proto.Stream.RoundTrip.{server_frame-read_frame}
use keep_talking_sfu.Server.Deliver.{Deliver, chunks, bytes_of, len-chunks, len-new, chunks-new}
use keep_talking_sfu.Server.Deliver
use keep_talking_sfu.Client.LaneStream.{
  Delivery, LanePump, LaneEnd, stream_ended, bulk_read, sends, on_frame, unless_bulk, after_turn,
  after_read, pump_deliveries, named, after_byte, pump_lane,
}
use keep_talking_sfu.Client.LaneStream.Reading.{
  pump_deliveries-whole, pump_deliveries-read_frame, pump_deliveries-Ends, Ends,
}

seen-first_byte : (r : Read Bytes) → seen (first_byte r) ≡ first_byte (seen r)
seen-first_byte (got [] s) = refl
seen-first_byte (got (b ∷ bs) s) = refl
seen-first_byte ended = refl
seen-first_byte broken = refl
seen-first_byte (bad_length n) = refl
seen-first_byte truncated = refl
seen-first_byte stuck = refl

-- The first byte of the content, if there is one.
abbrev pub byte_of : Bytes → End → Read ℕ
byte_of [] finished = ended
byte_of [] failed = broken
byte_of (b ∷ rest) e = got b (whole rest e)

first_byte-exact_of : (bytes : Bytes) (e : End) → first_byte (exact_of 1 bytes e) ≡ byte_of bytes e
first_byte-exact_of [] finished = ground arith
first_byte-exact_of [] failed = ground arith
first_byte-exact_of (b ∷ bytes) e = ground arith

pub read_lane_byte-byte_of : (s : Stream) → seen (read_lane_byte s) ≡ byte_of (content s) s.ending
unfolding read_lane_byte
read_lane_byte-byte_of s =
    seen-first_byte (read_exact 1 s)
    ∙ ap first_byte (read_exact-exact_of 1 s.pieces s.ending)
    ∙ first_byte-exact_of (content s) s.ending

-- The deliveries that the SFU writes, by topic and payload.
abbrev pub delivers : List (Topic × Bytes) → List Deliver
delivers [] = []
delivers ((t, payload) ∷ ds) = Deliver.new t.bytes payload ∷ delivers ds

-- A topic of 32 bytes and a payload within the bound for a PUBLISH.
abbrev pub IsSmall : Topic × Bytes → Type 0
IsSmall (t, payload) = IsTopic t × (length payload ≤ max_publish_len)

abbrev pub tagged : Lane → List (Topic × Bytes) → List Delivery
tagged lane [] = []
tagged lane ((t, payload) ∷ ds) =
    record { lane = lane; topic = t; payload = payload } ∷ tagged lane ds

abbrev pub IsLong : Lane → Type 0
IsLong control = Unit {0}
IsLong interactive = Unit {0}
IsLong bulk = ⊥

abbrev pub delivered : List Delivery → LanePump
delivered ds = record { deliveries = ds; skipped = 0 }

-- The receiver stays.
abbrev pub always : ℕ → Bool
always n = true

unless_long :
    (go : LanePump → LanePump × LaneEnd) (lane : Lane) (p : LanePump)
    → IsLong lane
    → unless_bulk go lane p ≡ go p
unless_long go control p h = refl
unless_long go interactive p h = refl
unless_long go bulk p h = absurd h

length-bytes_of :
    (ds : List (Topic × Bytes)) → All IsSmall ds → length ds ≤ length (bytes_of (delivers ds))
length-bytes_of [] h = omega arith
length-bytes_of ((t, payload) ∷ ds) (h, hs) =
    let d = Deliver.new t.bytes payload in
    omega (
      arith,
      length-append (flatten (chunks d)) (bytes_of (delivers ds)),
      length-bytes_of ds hs,
      len-chunks d,
      len-new t.bytes payload,
    )

after_byte-seen :
    (go : Lane → Stream → LanePump × LaneEnd) (r : Read ℕ) (p : LanePump)
    → ((lane : Lane) (s : Stream) → go lane s ≡ go lane (whole (content s) s.ending))
    → after_byte go r p ≡ after_byte go (seen r) p
after_byte-seen go (got b s) p h = elim (Option-cases (from_byte b)) [
  | inl e ↦ rw e refl
  | inr (lane, e) ↦ rw e (h lane s)
]
after_byte-seen go ended p h = refl
after_byte-seen go broken p h = refl
after_byte-seen go (bad_length n) p h = refl
after_byte-seen go truncated p h = refl
after_byte-seen go stuck p h = refl

module _ (EndpointId : Type 0) ⦃ids : EndpointIds EndpointId⦄ where
  -- The next delivery of a stream that begins with its frame.
  pump_deliveries-next :
      (fuel : ℕ) (lane : Lane) (t : Topic) (payload rest : Bytes) (s : Stream) (p : LanePump)
      → IsSmall (t, payload)
      → content s ≡ flatten (chunks (Deliver.new t.bytes payload)) ++ rest
      → pump_deliveries EndpointId always (suc fuel) lane s p
        ≡ after_turn always
            (pump_deliveries EndpointId always fuel lane (whole rest s.ending))
            lane
            p
            (sends (record { lane = lane; topic = t; payload = payload }))
  unfolding on_frame
  pump_deliveries-next fuel lane t payload rest s p (h, small) c =
      let f : ServerFrame EndpointId = deliver t payload in
      let (same, counted) = chunks-new EndpointId t payload h in
      let (q, r, d) =
        server_frame-read_frame f rest s h
          (omega (arith, counted, len-new t.bytes payload, h, small))
          (c ∙ ap (λ b. b ++ rest) same) in
      pump_deliveries-read_frame EndpointId always fuel lane s p
      ∙ ap
          (λ x.
            after_read EndpointId always (λ r q. pump_deliveries EndpointId always fuel lane r q)
              lane x p)
          r
      ∙ ap
          (λ x.
            after_turn always (pump_deliveries EndpointId always fuel lane (whole rest s.ending))
              lane p (on_frame lane x))
          d

  pump_deliveries-finished :
      (fuel : ℕ) (lane : Lane) (p : LanePump)
      → pump_deliveries EndpointId always (suc fuel) lane (whole [] finished) p ≡ (p, stream_ended)
  unfolding pump_deliveries read_frame read_exact read_pieces
  pump_deliveries-finished fuel lane p = refl

  pump_deliveries-delivers :
      (left : ℕ) (lane : Lane) (ds : List (Topic × Bytes)) (before : List Delivery) (s : Stream)
      → IsLong lane
      → All IsSmall ds
      → content s ≡ bytes_of (delivers ds)
      → s.ending ≡ finished
      → pump_deliveries EndpointId always (length ds + suc left) lane s (delivered before)
        ≡ (delivered (before ++ tagged lane ds), stream_ended)
  pump_deliveries-delivers left lane [] before s long h c e =
      ap (λ n. pump_deliveries EndpointId always n lane s (delivered before)) (omega arith)
      ∙ pump_deliveries-whole EndpointId always (suc left) lane s (delivered before)
      ∙ ap (λ r. pump_deliveries EndpointId always (suc left) lane r (delivered before))
          (ap (λ b. whole b s.ending) c ∙ ap (λ x. whole [] x) e)
      ∙ pump_deliveries-finished left lane (delivered before)
      ∙ ap (λ ds. (delivered ds, stream_ended)) (sym (append-nil before))
  pump_deliveries-delivers left lane ((t, payload) ∷ ds) before s long (h, hs) c e =
      let rest = bytes_of (delivers ds) in
      ap (λ n. pump_deliveries EndpointId always n lane s (delivered before)) (omega arith)
      ∙ pump_deliveries-next (length ds + suc left) lane t payload rest s (delivered before) h c
      ∙ unless_long
          (pump_deliveries EndpointId always (length ds + suc left) lane (whole rest s.ending)) lane
          _ long
      ∙ pump_deliveries-delivers left lane ds (before ++ tagged lane ((t, payload) ∷ []))
          (whole rest s.ending) long hs (append-nil rest) e
      ∙ ap (λ ds. (delivered ds, stream_ended))
          (append_assoc before (tagged lane ((t, payload) ∷ [])) (tagged lane ds))

  pump_lane-byte_of :
      (fuel : ℕ) (s : Stream) (p : LanePump)
      → pump_lane EndpointId always fuel s p
        ≡ after_byte
            (λ lane rest. pump_deliveries EndpointId always fuel lane rest p)
            (byte_of (content s) s.ending)
            p
  unfolding pump_lane
  pump_lane-byte_of fuel s p =
      let go : Lane → Stream → LanePump × LaneEnd =
        λ lane rest. pump_deliveries EndpointId always fuel lane rest p in
      after_byte-seen go (read_lane_byte s) p
        (λ lane r. pump_deliveries-whole EndpointId always fuel lane r p)
      ∙ ap (λ r. after_byte go r p) (read_lane_byte-byte_of s)

  pump_lane-prefix :
      (fuel : ℕ) (lane : Lane) (rest : Bytes) (s : Stream) (p : LanePump)
      → content s ≡ prefix lane ++ rest
      → pump_lane EndpointId always fuel s p
        ≡ pump_deliveries EndpointId always fuel lane (whole rest s.ending) p
  pump_lane-prefix fuel lane rest s p c =
      let go : Lane → Stream → LanePump × LaneEnd =
        λ lane rest. pump_deliveries EndpointId always fuel lane rest p in
      pump_lane-byte_of fuel s p
      ∙ ap (λ b. after_byte go (byte_of b s.ending) p) (c ∙ ap (λ b. b ++ rest) (prefix-byte lane))
      ∙ ap (λ o. named (λ l. go l (whole rest s.ending)) p o) (from_byte-byte lane)

  -- On a stream that carries the byte of the control or the interactive lane, then the DELIVERs of
  -- some publishes and its end, in whatever pieces, the client hands out exactly these deliveries in
  -- order, tagged with that lane, and skips nothing. Topics have 32 bytes and payloads are within
  -- `MAX_PUBLISH_LEN`; the loop gets a turn per byte, and the receiver stays.
  pub pump_lane-delivers :
      (fuel : ℕ) (lane : Lane) (ds : List (Topic × Bytes)) (s : Stream)
      → IsLong lane
      → All IsSmall ds
      → content s ≡ prefix lane ++ bytes_of (delivers ds)
      → s.ending ≡ finished
      → length (content s) ≤ fuel
      → pump_lane EndpointId always fuel s (delivered [])
        ≡ (delivered (tagged lane ds), stream_ended)
  pump_lane-delivers fuel lane ds s long h c e enough =
      let rest = bytes_of (delivers ds) in
      let left : ℕ = fuel - length ds - 1 in
      let fuelled : length ds + suc left ≡ fuel =
        omega
          (arith, length-bytes_of ds h, ap length (c ∙ ap (λ b. b ++ rest) (prefix-byte lane))) in
      pump_lane-prefix fuel lane rest s (delivered []) c
      ∙ ap (λ n. pump_deliveries EndpointId always n lane (whole rest s.ending) (delivered []))
          (sym fuelled)
      ∙ pump_deliveries-delivers left lane ds [] (whole rest s.ending) long h (append-nil rest) e

  -- From a bulk stream the client takes one delivery, whatever follows it, and stops reading. The
  -- topic has 32 bytes and the payload is within `MAX_PUBLISH_LEN`; the loop gets a turn at least,
  -- and the receiver stays.
  pub pump_lane_bulk :
      (fuel : ℕ) (t : Topic) (payload rest : Bytes) (s : Stream)
      → IsSmall (t, payload)
      → content s ≡ prefix bulk ++ (flatten (chunks (Deliver.new t.bytes payload)) ++ rest)
      → pump_lane EndpointId always (suc fuel) s (delivered [])
        ≡ (delivered (tagged bulk ((t, payload) ∷ [])), bulk_read)
  pump_lane_bulk fuel t payload rest s h c =
      let frames = flatten (chunks (Deliver.new t.bytes payload)) ++ rest in
      pump_lane-prefix (suc fuel) bulk frames s (delivered []) c
      ∙ pump_deliveries-next fuel bulk t payload rest (whole frames s.ending) (delivered []) h
          (append-nil frames)

module _ (EndpointId : Type 0) ⦃ids : EndpointIds EndpointId⦄ where
  after_byte-Ends :
      (fuel : ℕ) (bytes : Bytes) (e : End) (p : LanePump)
      → length bytes ≤ fuel
      → Ends EndpointId always (
          after_byte
            (λ lane rest. pump_deliveries EndpointId always fuel lane rest p)
            (byte_of bytes e)
            p)
  after_byte-Ends fuel [] finished p h = ((λ x. cc), (λ x. cc))
  after_byte-Ends fuel [] failed p h = ((λ x. cc), (λ x. cc))
  after_byte-Ends fuel (b ∷ bytes) e p h = elim (Option-cases (from_byte b)) [
    | inl unknown ↦ rw unknown ((λ x. cc), (λ x. cc))
    | inr (lane, known) ↦ rw known (
        pump_deliveries-Ends EndpointId always fuel lane (whole bytes e) p
          (omega (arith, ap length (append-nil bytes))))
  ]

  -- Whatever bytes arrive on a stream of the SFU, the client's reader of it ends without a panic,
  -- with as many turns as there are bytes; its receiver stays.
  pub pump_lane-Ends :
      (fuel : ℕ) (s : Stream) (p : LanePump)
      → length (content s) ≤ fuel
      → Ends EndpointId always (pump_lane EndpointId always fuel s p)
  pump_lane-Ends fuel s p h =
      rw (pump_lane-byte_of EndpointId fuel s p) (after_byte-Ends fuel (content s) s.ending p h)
