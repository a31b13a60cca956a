-- ===== src/Client/Requests/Streams.antt =====
-- What a client's sends leave on its streams.
use keep_talking_sfu.Prelude.{
  ℕ, ◌≡◌, ◌∙◌, refl, sym, ap, Bool, true, false, Bool-cases, inl, inr, Option, none, some, List, [],
  ◌∷◌, ◌++◌, flatten, append_assoc, append-nil,
}
use keep_talking_sfu.Prelude.Wire.{Bytes}
use keep_talking_sfu.Proto.Ids.{EndpointIds}
use keep_talking_sfu.Proto.Lane.{Lane, control, interactive, bulk, prefix, priority}
use keep_talking_sfu.Proto.ClientFrame.{ClientFrame}
use keep_talking_sfu.Proto.ClientFrame
use keep_talking_sfu.Transport.{Transport, IsTransport, TookAll, OpensSome}
use keep_talking_sfu.Client.LaneStream.Delivered.{IsLong}
use keep_talking_sfu.Client.Requests.{
  SfuClient, Sending, done, connection_closed, no_stream, not_written, not_finished, slot, set_slot,
  bulk_finished, bulk_opened, lane_written, lane_opened, on_slot, on_lane, send_lane,
}

module _ {EndpointId : Type 0} ⦃ids : EndpointIds EndpointId⦄ where
  -- The frames as they are written.
  abbrev pub encode_all : List (ClientFrame EndpointId) → Bytes
  encode_all [] = []
  encode_all (f ∷ fs) = ClientFrame.encode f ++ encode_all fs

  encode_all-one :
      (fs : List (ClientFrame EndpointId)) (f : ClientFrame EndpointId)
      → encode_all (fs ++ f ∷ []) ≡ encode_all fs ++ ClientFrame.encode f
  encode_all-one [] f = append-nil (ClientFrame.encode f)
  encode_all-one (g ∷ fs) f =
      ap (λ b. ClientFrame.encode g ++ b) (encode_all-one fs f)
      ∙ sym (append_assoc (ClientFrame.encode g) (encode_all fs) (ClientFrame.encode f))

module _ {C : Type 0} where
  slot-set_slot :
      (lane : Lane) (stream : Option ℕ) (client : SfuClient C)
      → IsLong lane
      → slot lane (set_slot lane stream client) ≡ stream
  unfolding slot set_slot
  slot-set_slot control stream client h = refl
  slot-set_slot interactive stream client h = refl
  slot-set_slot bulk stream client h = absurd h

  slot-conn :
      (lane : Lane) (client : SfuClient C) (c : C)
      → slot lane (record client { conn = c }) ≡ slot lane client
  unfolding slot
  slot-conn control client c = refl
  slot-conn interactive client c = refl
  slot-conn bulk client c = refl

  conn-set_slot :
      (lane : Lane) (stream : Option ℕ) (client : SfuClient C)
      → (set_slot lane stream client).conn ≡ client.conn
  unfolding set_slot
  conn-set_slot control stream client = refl
  conn-set_slot interactive stream client = refl
  conn-set_slot bulk stream client = refl

module _ (C : Type 0) ⦃net : Transport C⦄ where
  -- A call of the transport that did not write all that was left of these bytes.
  abbrev pub FailsWrite : Bytes → Type 0
  FailsWrite bytes =
      (i : ℕ) × (chunks : List Bytes) × (c : C) × ((net.write_all_chunks i chunks c).1 ≡ false)
      × (net.sent i c ++ flatten chunks ≡ bytes)

module _ {EndpointId C : Type 0} ⦃ids : EndpointIds EndpointId⦄ ⦃net : Transport C⦄
    (lane : Lane) where
  -- The lane's stream carries its byte and these frames; without a stream there are none.
  abbrev pub Carries : List (ClientFrame EndpointId) → Option ℕ → C → Type 0
  Carries fs none c = fs ≡ []
  Carries fs (some i) c = net.sent i c ≡ prefix lane ++ encode_all fs

  -- What a send of one more frame on a long-lived lane of an open connection leaves.
  abbrev pub SentOn : SfuClient C → List (ClientFrame EndpointId) → SfuClient C × Sending → Type 0
  SentOn client fs (k, done) = Carries fs (slot lane k) k.conn
  SentOn client fs (k, connection_closed) = ⊥
  SentOn client fs (k, no_stream) = (slot lane k ≡ none) × ((net.wait_uni client.conn).1 ≡ none)
  SentOn client fs (k, not_written) =
      (slot lane k ≡ none) × FailsWrite C (prefix lane ++ encode_all fs)
  SentOn client fs (k, not_finished) = ⊥

  -- The same, by whether the connection is closed.
  abbrev pub LaneSent :
      Bool → SfuClient C → List (ClientFrame EndpointId) → SfuClient C × Sending → Type 0
  LaneSent true client fs r = r ≡ (client, connection_closed)
  LaneSent false client fs r = SentOn client fs r

  lane_written-SentOn :
      (i : ℕ) (client : SfuClient C) (chunks : List Bytes) (c : C)
      (fs : List (ClientFrame EndpointId)) (r : C × Bool)
      → IsLong lane
      → net.sent i c ++ flatten chunks ≡ prefix lane ++ encode_all fs
      → TookAll i chunks c r
      → (net.write_all_chunks i chunks c).1 ≡ r.1
      → SentOn client fs (lane_written lane i client r)
  lane_written-SentOn i client chunks c fs (c', true) long e took wrote =
      rw
        (
          slot-set_slot lane (some i) (record client { conn = c' }) long,
          conn-set_slot lane (some i) (record client { conn = c' }),
        )
        (took ∙ e)
  lane_written-SentOn i client chunks c fs (c', false) long e took wrote =
      (slot-set_slot lane none (record client { conn = c' }) long, (i, chunks, c, wrote, e))

module _ {EndpointId C : Type 0} ⦃ids : EndpointIds EndpointId⦄ ⦃net : Transport C⦄
    (laws : IsTransport C) where
  lane_opened-SentOn :
      (lane : Lane) (client : SfuClient C) (f : ClientFrame EndpointId) (r : C × Option ℕ)
      → IsLong lane
      → slot lane client ≡ none
      → OpensSome r
      → (net.wait_uni client.conn).1 ≡ r.1
      → SentOn lane client (f ∷ []) (lane_opened lane client (ClientFrame.encode f) r)
  lane_opened-SentOn lane client f (c, none) long empty h got =
      (slot-conn lane client c ∙ empty, got)
  lane_opened-SentOn lane client f (c, some i) long empty h got =
      let chunks = prefix lane ∷ ClientFrame.encode f ∷ [] in
      let c' = net.set_priority i (priority lane) c in
      lane_written-SentOn lane i client chunks c' (f ∷ []) (net.write_all_chunks i chunks c') long
        (ap (λ b. b ++ flatten chunks) (laws.same_priority i i (priority lane) c ∙ h))
        (laws.write_all i chunks c') refl

  on_slot-SentOn :
      (lane : Lane) (client : SfuClient C) (f : ClientFrame EndpointId)
      (fs : List (ClientFrame EndpointId)) (stream : Option ℕ)
      → IsLong lane
      → slot lane client ≡ stream
      → Carries lane fs stream client.conn
      → SentOn lane client (fs ++ f ∷ []) (on_slot lane client (ClientFrame.encode f) stream)
  on_slot-SentOn lane client f fs none long e h = rw h (
      lane_opened-SentOn lane client f (net.wait_uni client.conn) long e
        (laws.opens_some client.conn) refl)
  on_slot-SentOn lane client f fs (some i) long e h =
      let chunks = ClientFrame.encode f ∷ [] in
      lane_written-SentOn lane i client chunks client.conn (fs ++ f ∷ [])
        (net.write_all_chunks i chunks client.conn) long
        (ap (λ b. b ++ flatten chunks) h
          ∙ append_assoc (prefix lane) (encode_all fs) (flatten chunks)
          ∙ ap (λ b. prefix lane ++ b)
              (ap (λ b. encode_all fs ++ b) (append-nil (ClientFrame.encode f))
                ∙ sym (encode_all-one fs f)))
        (laws.write_all i chunks client.conn) refl

  on_lane-SentOn :
      (lane : Lane) (client : SfuClient C) (f : ClientFrame EndpointId)
      (fs : List (ClientFrame EndpointId))
      → IsLong lane
      → Carries lane fs (slot lane client) client.conn
      → SentOn lane client (fs ++ f ∷ []) (on_lane lane client (ClientFrame.encode f))
  on_lane-SentOn control client f fs long h = on_slot-SentOn control client f fs _ long refl h
  on_lane-SentOn interactive client f fs long h =
      on_slot-SentOn interactive client f fs _ long refl h
  on_lane-SentOn bulk client f fs long h = absurd long

  -- A send on the control or the interactive lane whose stream carries the lane's byte and the frames
  -- sent on it so far. On a closed connection it answers that and nothing changes. On an open one,
  -- where it answers `Ok`, the lane's stream carries this frame behind them, and a lane that had no
  -- stream has a new one with its byte in front; it fails only where the transport opened no stream or
  -- did not write all that the lane's stream lacked, and then the lane has no stream, so the next send
  -- opens one. A successful write of the transport takes all of its chunks, a new stream is empty, and
  -- setting a priority sends nothing.
  pub send_lane_lem :
      (lane : Lane) (client : SfuClient C) (f : ClientFrame EndpointId)
      (fs : List (ClientFrame EndpointId))
      → IsLong lane
      → Carries lane fs (slot lane client) client.conn
      → LaneSent lane (net.is_closed client.conn) client (fs ++ f ∷ []) (send_lane lane f client)
  unfolding send_lane
  send_lane_lem lane client f fs long h = elim (Bool-cases (net.is_closed client.conn)) [
    | inl e ↦ rw e refl
    | inr e ↦ rw e (on_lane-SentOn lane client f fs long h)
  ]

module _ {EndpointId C : Type 0} ⦃ids : EndpointIds EndpointId⦄ ⦃net : Transport C⦄ where
  -- A stream of its own carries the bulk byte and the frame; the other lanes keep their streams.
  abbrev pub BulkSent : SfuClient C → ClientFrame EndpointId → SfuClient C × Sending → Type 0
  BulkSent client f (k, result) =
      (result ≡ done → (i : ℕ) × (net.sent i k.conn ≡ prefix bulk ++ ClientFrame.encode f))
      × (k.control ≡ client.control)
      × (k.interactive ≡ client.interactive)

  bulk_finished-BulkSent :
      (laws : IsTransport C) (client : SfuClient C) (f : ClientFrame EndpointId) (i : ℕ) (c : C)
      (r : C × Bool)
      → net.sent i c ≡ []
      → TookAll i (prefix bulk ∷ ClientFrame.encode f ∷ []) c r
      → BulkSent client f (bulk_finished client i r)
  bulk_finished-BulkSent laws client f i c (c', true) new took = (
    (λ e. (
      i,
      laws.same_finish i i c'
          ∙ took
          ∙ ap (λ b. b ++ (prefix bulk ++ (ClientFrame.encode f ++ []))) new
          ∙ ap (λ b. prefix bulk ++ b) (append-nil (ClientFrame.encode f)),
    )),
    refl,
    refl,
  )
  bulk_finished-BulkSent laws client f i c (c', false) new took = ((λ e. cc), refl, refl)

  bulk_opened-BulkSent :
      (laws : IsTransport C) (client : SfuClient C) (f : ClientFrame EndpointId) (r : C × Option ℕ)
      → OpensSome r
      → BulkSent client f (bulk_opened client (ClientFrame.encode f) r)
  bulk_opened-BulkSent laws client f (c, none) h = ((λ e. cc), refl, refl)
  bulk_opened-BulkSent laws client f (c, some i) h =
      let c' = net.set_priority i (priority bulk) c in
      bulk_finished-BulkSent laws client f i c'
        (net.write_all_chunks i (prefix bulk ∷ ClientFrame.encode f ∷ []) c')
        (laws.same_priority i i (priority bulk) c ∙ h)
        (laws.write_all i (prefix bulk ∷ ClientFrame.encode f ∷ []) c')

  -- A send on the bulk lane keeps the streams of the other lanes, and where it answers `Ok`, a stream
  -- carries the bulk byte and this frame and no more. A successful write of the transport takes all
  -- of its chunks, a new stream is empty, and setting a priority or finishing sends nothing.
  pub send_lane_bulk :
      (laws : IsTransport C) (client : SfuClient C) (f : ClientFrame EndpointId)
      → BulkSent client f (send_lane bulk f client)
  unfolding send_lane
  send_lane_bulk laws client f = elim (Bool-cases (net.is_closed client.conn)) [
    | inl e ↦ rw e ((λ x. cc), refl, refl)
    | inr e ↦ rw e (
        bulk_opened-BulkSent laws client f (net.wait_uni client.conn) (laws.opens_some client.conn))
  ]
