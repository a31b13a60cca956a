-- ===== src/EndToEnd/Sends.antt =====
-- From the frames that a client sends on a lane to what the server publishes.
use keep_talking_sfu.Prelude.{
  Bool, true, false, ℕ, suc, ◌≡◌, ◌∙◌, refl, sym, none, some, List, [], ◌∷◌, ◌++◌, All, length,
  subst, append-nil, append_assoc,
}
use keep_talking_sfu.Prelude.Wire.{Bytes}
use keep_talking_sfu.Proto.Ids.{EndpointIds}
use keep_talking_sfu.Proto.Lane.{Lane}
use keep_talking_sfu.Proto.Decode.{DecodeError}
use keep_talking_sfu.Proto.ClientFrame.{ClientFrame}
use keep_talking_sfu.Proto.Stream.{finished, Stream, content}
use keep_talking_sfu.Transport.{Transport, IsTransport}
use keep_talking_sfu.Server.Bucket.{Doubles}
use keep_talking_sfu.Server.Session.{Session}
use keep_talking_sfu.Server.Session.Lanes.{quiet, read_lane}
use keep_talking_sfu.Client.LaneStream.Delivered.{IsLong}
use keep_talking_sfu.Client.Requests.{SfuClient, Sending, done, slot, send_lane}
use keep_talking_sfu.Client.Requests.Streams.{encode_all, Carries, SentOn, LaneSent, send_lane_lem}
use keep_talking_sfu.EndToEnd.Requests.{IsRequest, publish_all, read_lane-publish_all}

module _ {C : Type 0} where
  -- The next send, if there was no failure.
  abbrev pub and_then :
      (SfuClient C → SfuClient C × Sending) → SfuClient C × Sending → SfuClient C × Sending
  and_then next (client, done) = next client
  and_then next r = r

module _ {EndpointId C : Type 0} ⦃ids : EndpointIds EndpointId⦄ ⦃net : Transport C⦄ where
  -- The sends of a caller that stops at the first one that fails.
  unfoldable pub send_all :
      Lane → List (ClientFrame EndpointId) → SfuClient C → SfuClient C × Sending
  send_all lane [] client = (client, done)
  send_all lane (f ∷ fs) client = and_then (λ k. send_all lane fs k) (send_lane lane f client)

  AllSent : Lane → List (ClientFrame EndpointId) → SfuClient C × Sending → Type 0
  AllSent lane fs r = r.1 ≡ done → Carries lane fs (slot lane r.0) r.0.conn

  module _ (laws : IsTransport C) (lane : Lane) (long : IsLong lane) where
    and_then-AllSent :
        (client : SfuClient C) (before fs : List (ClientFrame EndpointId))
        (next : SfuClient C → SfuClient C × Sending) (r : SfuClient C × Sending)
        → ((k : SfuClient C) → Carries lane before (slot lane k) k.conn → AllSent lane fs (next k))
        → SentOn lane client before r
        → AllSent lane fs (and_then next r)
    unfolding AllSent
    and_then-AllSent client before fs next (k, done) more sent = more k sent
    and_then-AllSent client before fs next (k, Sending.connection_closed) more sent = λ e. cc
    and_then-AllSent client before fs next (k, Sending.no_stream) more sent = λ e. cc
    and_then-AllSent client before fs next (k, Sending.not_written) more sent = λ e. cc
    and_then-AllSent client before fs next (k, Sending.not_finished) more sent = λ e. cc

    LaneSent-AllSent :
        (closed : Bool) (client : SfuClient C) (before fs : List (ClientFrame EndpointId))
        (next : SfuClient C → SfuClient C × Sending) (r : SfuClient C × Sending)
        → ((k : SfuClient C) → Carries lane before (slot lane k) k.conn → AllSent lane fs (next k))
        → LaneSent lane closed client before r
        → AllSent lane fs (and_then next r)
    unfolding AllSent
    LaneSent-AllSent true client before fs next r more sent = rw sent (λ e. cc)
    LaneSent-AllSent false client before fs next r more sent =
        and_then-AllSent client before fs next r more sent

    send_all-AllSent :
        (fs before : List (ClientFrame EndpointId)) (client : SfuClient C)
        → Carries lane before (slot lane client) client.conn
        → AllSent lane (before ++ fs) (send_all lane fs client)
    unfolding send_all AllSent
    send_all-AllSent [] before client h = λ e.
        subst (λ gs. Carries lane gs (slot lane client) client.conn) (sym (append-nil before)) h
    send_all-AllSent (f ∷ fs) before client h =
        subst (λ gs. AllSent lane gs (send_all lane (f ∷ fs) client))
          (append_assoc before (f ∷ []) fs)
          (LaneSent-AllSent (net.is_closed client.conn) client (before ++ f ∷ [])
            ((before ++ f ∷ []) ++ fs) (λ k. send_all lane fs k) (send_lane lane f client)
            (λ k sent. send_all-AllSent fs (before ++ f ∷ []) k sent)
            (send_lane_lem laws lane client f before long h))

module _ {EndpointId F C : Type 0} ⦃ids : EndpointIds EndpointId⦄ ⦃f64 : Doubles F⦄
    ⦃net : Transport C⦄ (laws : IsTransport C) where
  -- Where a client without a stream on the control or the interactive lane sends some PUBLISH and
  -- PUBLISH_TO frames on it and every send answers `Ok`, and the server reads the stream that the
  -- lane then has to its end, in whatever pieces it arrives, the server does what `publish` does with
  -- exactly these frames in order, each with the topic and the size that the client sent, skips
  -- nothing and ends quietly. Topics have 32 bytes and frames are within `MAX_FRAME_LEN`.
  pub send_all-read_lane :
      (lane : Lane) (fs : List (ClientFrame EndpointId)) (client : SfuClient C) (i : ℕ)
      (text : ℕ → DecodeError → Bytes) (clock : ℕ → ℕ) (stream : Stream) (s : Session EndpointId F)
      → IsLong lane
      → All IsRequest fs
      → slot lane client ≡ none
      → let r = send_all lane fs client in
        r.1 ≡ done
        → slot lane r.0 ≡ some i
        → content stream ≡ net.sent i r.0.conn
        → stream.ending ≡ finished
        → read_lane text clock stream s
          ≡ (publish_all clock lane (suc (length (encode_all fs))) fs s, quiet)
  unfolding AllSent
  send_all-read_lane lane fs client i text clock stream s long h new all open_ c e =
      let carried =
        send_all-AllSent laws lane long fs [] client
          (subst (λ o. Carries {EndpointId = EndpointId} lane [] o client.conn) (sym new) refl)
          all in
      read_lane-publish_all text clock lane fs stream s long h
        (c ∙ subst (λ o. Carries lane fs o (send_all lane fs client).0.conn) open_ carried) e
