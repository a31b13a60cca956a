-- ===== src/Server/Rooms/Takeover.antt =====
-- src/server.rs, `owns_slot`: a slot is its newest connection's, and nobody else's calls act on it.
use keep_talking_sfu.Prelude.{
  ℕ, ◌≡◌, ◌∙◌, refl, true, false, none, some, [], length, ◌==◌, insert, lookup-insert_self, arith,
  Option-cases, inl, inr, if_pos,
}
use keep_talking_sfu.Prelude.Wire.{Bytes}
use keep_talking_sfu.Proto.Ids.{EndpointIds}
use keep_talking_sfu.Proto.Lane.{Lane}
use keep_talking_sfu.Proto.Topic.{Topic}
use keep_talking_sfu.Proto.Topic
use keep_talking_sfu.Server.Deliver.{Deliver}
use keep_talking_sfu.Server.World.{Handle, Room}
use keep_talking_sfu.Server.Rooms.{
  Rooms, World, not_subscribed, refused, get_room, put_room, or_default, owns_slot, enter,
  join_room, join, leave, announce, is_member, own_room, publish, publish_to, datagram_targets,
}
use keep_talking_sfu.Server.Rooms.Shards.{IsSharded, get_room-put_room, put_room-IsSharded}

module _ {EndpointId : Type 0} where
  -- The members of a topic's room; a topic without a room has none.
  abbrev pub room_at : Rooms EndpointId → Topic → Room EndpointId
  room_at r t = elim (get_room r t) [ none ↦ [] | some room ↦ room ]

  pub get_room-put_room_self :
      (r : Rooms EndpointId) (t : Topic) (room : Room EndpointId)
      → IsSharded r
      → get_room (put_room r t room) t ≡ some room
  get_room-put_room_self r t room h =
      get_room-put_room r t t room h ∙ if_pos (Topic.discrete t t) refl _ _

module _ {EndpointId : Type 0} ⦃ids : EndpointIds EndpointId⦄ where
  -- A connection that does not hold its member's slot can do nothing in the room: leave, announce,
  -- publish and publish_to change nothing and say so, and its datagrams have no targets.
  pub stranger_refused :
      (t : Topic) (h : Handle EndpointId) (w : World EndpointId) (blob : Bytes) (to : EndpointId)
      (lane : Lane) (d : Deliver)
      → is_member t h w.rooms ≡ false
      → (leave t h w ≡ (w, none))
        × (announce t h blob w ≡ (w, false))
        × (publish t h lane d w ≡ (w, refused not_subscribed))
        × (publish_to t h to lane d w ≡ (w, refused not_subscribed))
        × (datagram_targets t h w.rooms ≡ none)
  unfolding is_member leave announce publish publish_to own_room datagram_targets
  stranger_refused t h w blob to lane d out =
      (ground arith, ground arith, ground arith, ground arith, ground arith)

  join_room_joined :
      (t : Topic) (h : Handle EndpointId) (w : World EndpointId) (n : ℕ) (r : Rooms EndpointId)
      (room : Room EndpointId)
      → IsSharded r
      → (join_room t h w r room).1 ≡ some n
      → let room' = insert ids.discrete h.peer (record { handle = h; blob = [] }) room in
        (get_room (join_room t h w r room).0.rooms t ≡ some room') × (n ≡ length room')
  unfolding join_room enter
  join_room_joined t h w n r room sharded e = ground (
    arith,
    get_room-put_room_self r t (insert ids.discrete h.peer (record { handle = h; blob = [] }) room)
        sharded,
  )

  -- What a join that is not refused makes of the room.
  pub join-room_at :
      (t : Topic) (h : Handle EndpointId) (w : World EndpointId) (n : ℕ)
      → IsSharded w.rooms
      → (join t h w).1 ≡ some n
      → let room' =
          insert ids.discrete h.peer (record { handle = h; blob = [] }) (room_at w.rooms t) in
        (get_room (join t h w).0.rooms t ≡ some room') × (n ≡ length room')
  unfolding join or_default
  join-room_at t h w n sharded = elim (Option-cases (get_room w.rooms t)) [
    | inl absent ↦
        rw (absent, or_default, room_at)
          (join_room_joined t h w n (put_room w.rooms t []) []
            (put_room-IsSharded w.rooms t [] sharded))
    | inr (room, there) ↦
        rw (there, or_default, room_at) (join_room_joined t h w n w.rooms room sharded)
  ]

  -- After a join that is not refused, a connection of the same member holds the slot exactly if it
  -- is the one that joined: a newer connection takes the slot over. The rooms have all their
  -- shards.
  pub join_takes_over :
      (t : Topic) (h g : Handle EndpointId) (w : World EndpointId) (n : ℕ)
      → IsSharded w.rooms
      → (join t h w).1 ≡ some n
      → g.peer ≡ h.peer
      → is_member t g (join t h w).0.rooms ≡ (h.conn_id == g.conn_id)
  unfolding is_member owns_slot
  join_takes_over t h g w n sharded e same =
      rw ((join-room_at t h w n sharded e).0, is_member)
        (rw same (
          rw
            (
              lookup-insert_self ids.discrete h.peer (record { handle = h; blob = [] })
                  (room_at w.rooms t),
              owns_slot,
            )
            refl))

  -- A member's room, found with its owner.
  pub own_cases :
      (t : Topic) (h : Handle EndpointId) (r : Rooms EndpointId)
      → is_member t h r ≡ true
      → (get_room r t ≡ some (room_at r t)) × (owns_slot (room_at r t) h ≡ true)
  unfolding is_member
  own_cases t h r e = elim (Option-cases (get_room r t)) [
    | inl absent ↦ ground arith
    | inr (room, there) ↦ rw (there, room_at) (ground arith)
  ]
