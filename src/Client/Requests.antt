-- ===== src/Client/Requests.antt =====
-- src/client.rs, `SfuClient`: what a client sends, on the session stream, on lane streams and as
-- datagrams. The mutexes make each method one step.
pub mod Streams
use keep_talking_sfu.Prelude.{
  ℕ, Bool, true, false, Option, none, some, List, [], ◌∷◌, if◌then◌else◌,
}
use keep_talking_sfu.Prelude.Wire.{Bytes, ascii}
use keep_talking_sfu.Proto.Ids.{EndpointIds}
use keep_talking_sfu.Proto.Lane.{Lane, control, interactive, bulk, prefix, priority}
use keep_talking_sfu.Proto.Topic.{Topic}
use keep_talking_sfu.Proto.Datagram.{datagram, split_datagram}
use keep_talking_sfu.Proto.ClientFrame.{ClientFrame}
use keep_talking_sfu.Proto.ClientFrame
use keep_talking_sfu.Transport.{Transport}

-- The connection, the session stream, and the streams of the long-lived lanes once opened.
pub record SfuClient (C : Type 0) : Type 0 where
  pub conn : C
  pub session : ℕ
  pub control : Option ℕ
  pub interactive : Option ℕ

-- `Result<()>` by what failed.
pub data Sending : Type 0 where
  done connection_closed no_stream not_written not_finished : Sending

-- `self.lanes[lane.index()]`; the bulk lane has no slot.
unfoldable pub slot : {C : Type 0} → Lane → SfuClient C → Option ℕ
slot control client = client.control
slot interactive client = client.interactive
slot bulk client = none

unfoldable pub set_slot : {C : Type 0} → Lane → Option ℕ → SfuClient C → SfuClient C
set_slot control stream client = record client { control = stream }
set_slot interactive stream client = record client { interactive = stream }
set_slot bulk stream client = client

module _ {C : Type 0} ⦃net : Transport C⦄ where
  abbrev pub written : SfuClient C → C × Bool → SfuClient C × Sending
  written client (c, ok) = (record client { conn = c }, (if ok then done else not_written))

  -- A bulk frame: a stream of its own, finished right after it.
  abbrev pub bulk_finished : SfuClient C → ℕ → C × Bool → SfuClient C × Sending
  bulk_finished client i (c, false) = (record client { conn = c }, not_written)
  bulk_finished client i (c, true) =
      let (c', finished) = net.finish i c in
      (record client { conn = c' }, (if finished then done else not_finished))

  abbrev pub bulk_opened : SfuClient C → Bytes → C × Option ℕ → SfuClient C × Sending
  bulk_opened client bytes (c, none) = (record client { conn = c }, no_stream)
  bulk_opened client bytes (c, some i) =
      bulk_finished client i
        (net.write_all_chunks i (prefix bulk ∷ bytes ∷ []) (net.set_priority i (priority bulk) c))

  -- Behind the write on a lane's stream: a stream that failed is given up.
  abbrev pub lane_written : Lane → ℕ → SfuClient C → C × Bool → SfuClient C × Sending
  lane_written lane i client (c, true) = (set_slot lane (some i) (record client { conn = c }), done)
  lane_written lane i client (c, false) =
      (set_slot lane none (record client { conn = c }), not_written)

  abbrev pub lane_opened : Lane → SfuClient C → Bytes → C × Option ℕ → SfuClient C × Sending
  lane_opened lane client bytes (c, none) = (record client { conn = c }, no_stream)
  lane_opened lane client bytes (c, some i) =
      lane_written lane i client
        (net.write_all_chunks i (prefix lane ∷ bytes ∷ []) (net.set_priority i (priority lane) c))

  abbrev pub on_slot : Lane → SfuClient C → Bytes → Option ℕ → SfuClient C × Sending
  on_slot lane client bytes (some i) =
      lane_written lane i client (net.write_all_chunks i (bytes ∷ []) client.conn)
  on_slot lane client bytes none = lane_opened lane client bytes (net.wait_uni client.conn)

  abbrev pub on_lane : Lane → SfuClient C → Bytes → SfuClient C × Sending
  on_lane bulk client bytes = bulk_opened client bytes (net.wait_uni client.conn)
  on_lane control client bytes = on_slot control client bytes (slot control client)
  on_lane interactive client bytes = on_slot interactive client bytes (slot interactive client)

  -- `ensure_open` in front of a send.
  unfoldable pub ensure_open :
      SfuClient C → (SfuClient C → SfuClient C × Sending) → SfuClient C × Sending
  ensure_open client send =
      if net.is_closed client.conn then (client, connection_closed) else send client

  unfoldable pub send_datagram : Topic → Bytes → SfuClient C → SfuClient C × Bool
  send_datagram topic payload client =
      let (c, ok) = net.send_datagram (datagram topic payload) client.conn in
      (record client { conn = c }, ok)

  unfoldable pub close : SfuClient C → SfuClient C
  close client = record client { conn = net.close 0 (ascii "bye") client.conn }

-- The loop over the datagrams that arrive; `none` is the error once the connection is gone.
abbrev pub or_next :
    Option (Topic × Bytes)
    → List Bytes
    → Option ((Topic × Bytes) × List Bytes)
    → Option ((Topic × Bytes) × List Bytes)
or_next (some split) rest later = some (split, rest)
or_next none rest later = later

unfoldable pub read_datagram : List Bytes → Option ((Topic × Bytes) × List Bytes)
read_datagram [] = none
read_datagram (raw ∷ rest) = or_next (split_datagram raw) rest (read_datagram rest)

module _ {EndpointId C : Type 0} ⦃ids : EndpointIds EndpointId⦄ ⦃net : Transport C⦄ where
  unfoldable pub send_session : ClientFrame EndpointId → SfuClient C → SfuClient C × Sending
  unfolding ensure_open
  send_session frame client =
      ensure_open client
        (λ k. written k (net.write_all_chunks k.session (ClientFrame.encode frame ∷ []) k.conn))

  unfoldable pub send_lane : Lane → ClientFrame EndpointId → SfuClient C → SfuClient C × Sending
  unfolding ensure_open
  send_lane lane frame client = ensure_open client (λ k. on_lane lane k (ClientFrame.encode frame))

module _ (EndpointId : Type 0) {C : Type 0} ⦃ids : EndpointIds EndpointId⦄ ⦃net : Transport C⦄ where
  unfoldable pub subscribe : Topic → SfuClient C → SfuClient C × Sending
  subscribe topic client =
      let frame : ClientFrame EndpointId = ClientFrame.subscribe topic in send_session frame client

  unfoldable pub unsubscribe : Topic → SfuClient C → SfuClient C × Sending
  unsubscribe topic client =
      let frame : ClientFrame EndpointId = ClientFrame.unsubscribe topic in
      send_session frame client

  unfoldable pub announce : Topic → Bytes → SfuClient C → SfuClient C × Sending
  announce topic blob client =
      let frame : ClientFrame EndpointId = ClientFrame.announce topic blob in
      send_session frame client

  unfoldable pub publish : Lane → Topic → Bytes → SfuClient C → SfuClient C × Sending
  publish lane topic payload client =
      let frame : ClientFrame EndpointId = ClientFrame.publish topic payload in
      send_lane lane frame client

  unfoldable pub publish_to :
      Lane → Topic → EndpointId → Bytes → SfuClient C → SfuClient C × Sending
  publish_to lane topic recipient payload client =
      let frame : ClientFrame EndpointId = ClientFrame.publish_to topic recipient payload in
      send_lane lane frame client
