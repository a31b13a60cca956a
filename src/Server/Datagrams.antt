-- ===== src/Server/Datagrams.antt =====
-- src/server.rs, one round of `datagram_loop`: a datagram of a client goes to the others in its room.
pub mod Forwarding
use keep_talking_sfu.Prelude.{
  ℕ, ◌≡◌, ◌∙◌, refl, sym, Bool, true, Option, none, some, List, [], ◌∷◌, ◌++◌, length,
  if◌then◌else◌, map, append-nil, append_assoc,
}
use keep_talking_sfu.Prelude.Wire.{Bytes}
use keep_talking_sfu.Proto.Ids.{EndpointIds}
use keep_talking_sfu.Proto.Topic.{Topic, IsTopic}
use keep_talking_sfu.Proto.Datagram.{datagram, split_datagram, split_datagram-datagram}
use keep_talking_sfu.Server.Stats.{Stats, bump}
use keep_talking_sfu.Server.World.{Handle}
use keep_talking_sfu.Server.Rooms.{Rooms, is_member, other_conns, datagram_targets}
use keep_talking_sfu.Server.Rooms.Takeover.{room_at, own_cases}
use keep_talking_sfu.Server.Bucket.{Doubles, Bucket, try_take}

-- The loop's bucket, the counters, and the calls of `send_datagram` that it made, in order.
pub record Forwarder (F : Type 0) : Type 0 where
  pub rate : Bucket F
  pub stats : Stats
  pub sends : List (ℕ × Bytes)

-- The inner loop. `is_ok` says whether the transport takes a datagram for a connection.
unfoldable pub send_all :
    {F : Type 0} → (ℕ → Bytes → Bool) → Bytes → List ℕ → Forwarder F → Forwarder F
send_all is_ok d [] f = f
send_all is_ok d (conn ∷ conns) f = send_all is_ok d conns (record f {
  sends = f.sends ++ (conn, d) ∷ [];
  stats =
      if is_ok conn d
      then record f.stats { datagrams_out = bump f.stats.datagrams_out }
      else f.stats;
})

-- `split_datagram(..).and_then(..)`
abbrev pub targets_of :
    {EndpointId : Type 0} ⦃ids : EndpointIds EndpointId⦄
    → Handle EndpointId
    → Rooms EndpointId
    → Option (Topic × Bytes)
    → Option (List ℕ)
targets_of h rooms none = none
targets_of h rooms (some (t, payload)) = datagram_targets t h rooms

abbrev pub sent_or_dropped :
    {F : Type 0} → (ℕ → Bytes → Bool) → Bytes → Option (List ℕ) → Forwarder F → Forwarder F
sent_or_dropped is_ok d none f = record f {
  stats = record f.stats { datagrams_dropped = bump f.stats.datagrams_dropped };
}
sent_or_dropped is_ok d (some conns) f = send_all is_ok d conns f

unfoldable pub forward_datagram :
    {EndpointId F : Type 0} ⦃ids : EndpointIds EndpointId⦄ ⦃f64 : Doubles F⦄
    → (ℕ → Bytes → Bool)
    → ℕ
    → Handle EndpointId
    → Rooms EndpointId
    → Bytes
    → Forwarder F
    → Forwarder F
forward_datagram is_ok now h rooms d f =
    let (rate, allowed) = try_take now (length d) f.rate in
    let received = record f {
      rate = rate;
      stats = record f.stats { datagrams_in = bump f.stats.datagrams_in };
    } in
    sent_or_dropped is_ok d (if allowed then targets_of h rooms (split_datagram d) else none)
      received
