-- ===== src/Server/Rooms/Fanout.antt =====
-- Who gets what from a broadcast, a publish and a directed publish.
use keep_talking_sfu.Prelude.{
  ℕ, ◌+◌, ◌≡◌, refl, ◌∙◌, Bool, true, false, not, [], ◌∷◌, ◌==◌, ◌&&◌, ◌||◌, ite, if◌then◌else◌,
  arith,
}
use keep_talking_sfu.Prelude.Wire.{Bytes}
use keep_talking_sfu.Proto.Ids.{EndpointIds}
use keep_talking_sfu.Proto.Lane.{Lane}
use keep_talking_sfu.Server.Deliver.{Deliver}
use keep_talking_sfu.Server.Outbound.{deliver, push_frame}
use keep_talking_sfu.Server.World.{Slot, Room, Net, on_link, deliver_to}
use keep_talking_sfu.Server.Rooms.{broadcast, fan_out}

module _ {EndpointId : Type 0} where
  -- Some member has this connection.
  abbrev pub has_conn : ℕ → Room EndpointId → Bool
  has_conn c [] = false
  has_conn c ((id, slot) ∷ room) = slot.handle.conn_id == c || has_conn c room

  -- No two members have one connection.
  abbrev pub AreDistinct : Room EndpointId → Type 0
  AreDistinct [] = Unit {0}
  AreDistinct ((id, slot) ∷ room) = (has_conn slot.handle.conn_id room ≡ false) × AreDistinct room

module _ {EndpointId : Type 0} ⦃ids : EndpointIds EndpointId⦄ where
  -- Some member other than `except` has this connection.
  abbrev pub hears : ℕ → EndpointId → Room EndpointId → Bool
  hears c except [] = false
  hears c except ((id, slot) ∷ room) =
      (not (ite (ids.discrete id except) true false) && slot.handle.conn_id == c)
      || hears c except room

  pub hears-has_conn :
      (c : ℕ) (except : EndpointId) (room : Room EndpointId)
      → has_conn c room ≡ false
      → hears c except room ≡ false
  hears-has_conn c except [] h = refl
  hears-has_conn c except ((id, slot) ∷ room) h = ground (arith, hears-has_conn c except room)

  -- A broadcast reaches each other member once, and nobody else.
  pub broadcast-hears :
      (room : Room EndpointId) (except : EndpointId) (frame : Bytes) (net : Net EndpointId) (c : ℕ)
      → AreDistinct room
      → (broadcast room except frame net).links c
        ≡ (if hears c except room then push_frame frame (net.links c) else net.links c)
  unfolding broadcast on_link
  broadcast-hears [] except frame net c h = refl
  broadcast-hears ((id, slot) ∷ room) except frame net c h = ground (
    arith,
    broadcast-hears room except frame net c h.1,
    broadcast-hears room except frame (on_link slot.handle.conn_id (push_frame frame) net) c h.1,
    hears-has_conn c except room,
  )

  pub links-deliver_to :
      (conn c : ℕ) (lane : Lane) (d : Deliver) (net : Net EndpointId)
      → (deliver_to conn lane d net).links c
        ≡ (if conn == c then (deliver lane d (net.links c)).0 else net.links c)
  unfolding deliver_to
  links-deliver_to conn c lane d net = ground arith

  fan_step :
      (id : EndpointId) (slot : Slot EndpointId) (room : Room EndpointId) (peer : EndpointId)
      (lane : Lane) (d : Deliver) (net : Net EndpointId) (c : ℕ)
      → AreDistinct ((id, slot) ∷ room)
      → let net' = ite (ids.discrete id peer) net (deliver_to slot.handle.conn_id lane d net) in
        (if hears c peer room then (deliver lane d (net'.links c)).0 else net'.links c) ≡ (
          if hears c peer ((id, slot) ∷ room)
          then (deliver lane d (net.links c)).0
          else net.links c)
  fan_step id slot room peer lane d net c h =
      ground (arith, links-deliver_to slot.handle.conn_id c lane d net, hears-has_conn c peer room)

  -- So does a publish, with the DELIVER on its lane.
  pub fan_out-hears :
      (room : Room EndpointId) (peer : EndpointId) (lane : Lane) (d : Deliver)
      (net : Net EndpointId) (n c : ℕ)
      → AreDistinct room
      → (fan_out room peer lane d net n).0.links c
        ≡ (if hears c peer room then (deliver lane d (net.links c)).0 else net.links c)
  unfolding fan_out
  fan_out-hears [] peer lane d net n c h = refl
  fan_out-hears ((id, slot) ∷ room) peer lane d net n c h =
      fan_out-hears room peer lane d
        (ite (ids.discrete id peer) net (deliver_to slot.handle.conn_id lane d net))
        (ite (ids.discrete id peer) n (n + 1)) c h.1
      ∙ fan_step id slot room peer lane d net c h

  -- The count that `publish` returns.
  abbrev pub others_count : EndpointId → Room EndpointId → ℕ
  others_count peer [] = 0
  others_count peer ((id, slot) ∷ room) = ite (ids.discrete id peer) 0 1 + others_count peer room

  pub fan_out_count :
      (room : Room EndpointId) (peer : EndpointId) (lane : Lane) (d : Deliver)
      (net : Net EndpointId) (n : ℕ)
      → (fan_out room peer lane d net n).1 ≡ n + others_count peer room
  unfolding fan_out
  fan_out_count [] peer lane d net n = omega arith
  fan_out_count ((id, slot) ∷ room) peer lane d net n =
      fan_out_count room peer lane d
        (ite (ids.discrete id peer) net (deliver_to slot.handle.conn_id lane d net))
        (ite (ids.discrete id peer) n (n + 1))
      ∙ ground arith
