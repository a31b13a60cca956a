-- ===== src/Server/Rooms/Members.antt =====
-- The members of one room: whose slot is whose, and how the room's map changes.
use keep_talking_sfu.Prelude.{
  ℕ, ◌+◌, ◌≤◌, ◌≡◌, refl, false, none, some, [], ◌∷◌, length, lookup, insert, remove, lookup-insert,
  lookup-remove, arith, Option-cases, inl, inr, if◌then◌else◌,
}
use keep_talking_sfu.Prelude.Wire.{Bytes}
use keep_talking_sfu.Proto.Ids.{EndpointIds}
use keep_talking_sfu.Server.World.{Slot, Room}
use keep_talking_sfu.Server.Rooms.{contains_key, set_blob}
use keep_talking_sfu.Server.Rooms.Fanout.{has_conn, AreDistinct}

module _ {EndpointId : Type 0} ⦃ids : EndpointIds EndpointId⦄ (peer_of : ℕ → EndpointId) where
  -- `peer_of` is the authenticated peer of each connection. A slot holds a handle of its own
  -- member, and a member has one slot.
  abbrev pub IsOwn : EndpointId → Slot EndpointId → Type 0
  IsOwn id slot = (slot.handle.peer ≡ id) × (peer_of slot.handle.conn_id ≡ id)

  abbrev pub AreOwn : Room EndpointId → Type 0
  AreOwn [] = Unit {0}
  AreOwn ((id, slot) ∷ room) = IsOwn id slot × (lookup ids.discrete id room ≡ none) × AreOwn room

  pub has_conn-absent :
      (c : ℕ) (room : Room EndpointId)
      → AreOwn room
      → lookup ids.discrete (peer_of c) room ≡ none
      → has_conn c room ≡ false
  unfolding lookup
  has_conn-absent c [] v e = refl
  has_conn-absent c ((id, slot) ∷ room) v e = ground (arith, has_conn-absent c room v.2)

  -- So no two members have one connection.
  pub AreOwn-AreDistinct : (room : Room EndpointId) → AreOwn room → AreDistinct room
  AreOwn-AreDistinct [] v = tt
  AreOwn-AreDistinct ((id, slot) ∷ room) v =
      (has_conn-absent slot.handle.conn_id room v.2 (rw (v.0.1) v.1), AreOwn-AreDistinct room v.2)

  pub insert-AreOwn :
      (id : EndpointId) (slot : Slot EndpointId) (room : Room EndpointId)
      → IsOwn id slot
      → AreOwn room
      → AreOwn (insert ids.discrete id slot room)
  unfolding insert lookup
  insert-AreOwn id slot [] own v = (own, refl, tt)
  insert-AreOwn id slot ((j, other) ∷ room) own v =
      ground (arith, insert-AreOwn id slot room own v.2, lookup-insert ids.discrete id j slot room)

  pub remove-AreOwn :
      (id : EndpointId) (room : Room EndpointId)
      → AreOwn room
      → AreOwn (remove ids.discrete id room)
  unfolding remove
  remove-AreOwn id [] v = tt
  remove-AreOwn id ((j, other) ∷ room) v =
      ground (arith, remove-AreOwn id room v.2, lookup-remove ids.discrete id j room)

  lookup-IsOwn :
      (id : EndpointId) (slot : Slot EndpointId) (room : Room EndpointId)
      → AreOwn room
      → lookup ids.discrete id room ≡ some slot
      → IsOwn id slot
  unfolding lookup
  lookup-IsOwn id slot [] v e = cc
  lookup-IsOwn id slot ((j, other) ∷ room) v e = ground (arith, lookup-IsOwn id slot room v.2)

  pub set_blob-AreOwn :
      (id : EndpointId) (blob : Bytes) (room : Room EndpointId)
      → AreOwn room
      → AreOwn (set_blob id blob room)
  unfolding set_blob
  set_blob-AreOwn id blob room v = elim (Option-cases (lookup ids.discrete id room)) [
    | inl e ↦ rw (e, set_blob) v
    | inr (slot, e) ↦
        rw (e, set_blob)
          (insert-AreOwn id (record slot { blob = blob }) room (lookup-IsOwn id slot room v e) v)
  ]

module _ {EndpointId : Type 0} ⦃ids : EndpointIds EndpointId⦄ where
  pub length-insert :
      (id : EndpointId) (slot : Slot EndpointId) (room : Room EndpointId)
      → length (insert ids.discrete id slot room)
        ≡ (if contains_key id room then length room else length room + 1)
  unfolding insert contains_key lookup
  length-insert id slot [] = refl
  length-insert id slot ((j, other) ∷ room) = ground (arith, length-insert id slot room)

  pub length-set_blob :
      (id : EndpointId) (blob : Bytes) (room : Room EndpointId)
      → length (set_blob id blob room) ≡ length room
  unfolding set_blob contains_key
  length-set_blob id blob room = elim (Option-cases (lookup ids.discrete id room)) [
    | inl e ↦ rw (e, set_blob) refl
    | inr (slot, e) ↦
        rw (e, set_blob) (ground (arith, length-insert id (record slot { blob = blob }) room))
  ]

  pub length-remove-le :
      (id : EndpointId) (room : Room EndpointId)
      → length (remove ids.discrete id room) ≤ length room
  unfolding remove
  length-remove-le id [] = omega arith
  length-remove-le id ((j, other) ∷ room) = ground (arith, length-remove-le id room)
