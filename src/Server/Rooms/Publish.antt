-- ===== src/Server/Rooms/Publish.antt =====
-- src/server.rs, `Rooms::publish` and `publish_to`: who is reached, and the answer.
use keep_talking_sfu.Prelude.{
  ℕ, ◌+◌, ◌-◌, ◌≡◌, refl, ap, Bool, true, false, [], ◌∷◌, length, ◌==◌, ◌&&◌, not, ite,
  if◌then◌else◌, arith, none, some, lookup, Bool-cases, Option-cases, inl, inr,
}
use keep_talking_sfu.Proto.Ids.{EndpointIds}
use keep_talking_sfu.Proto.Lane.{Lane}
use keep_talking_sfu.Proto.Topic.{Topic}
use keep_talking_sfu.Server.Deliver.{Deliver}
use keep_talking_sfu.Server.Outbound.{deliver}
use keep_talking_sfu.Server.World.{Handle, Room}
use keep_talking_sfu.Server.Rooms.{
  World, Sent, sent, refused, no_such_recipient, not_subscribed, owns_slot, is_member, own_room,
  publish, publish_to,
}
use keep_talking_sfu.Server.Rooms.Fanout.{
  hears, fan_out-hears, fan_out_count, others_count, links-deliver_to,
}
use keep_talking_sfu.Server.Rooms.Members.{AreOwn, AreOwn-AreDistinct}
use keep_talking_sfu.Server.Rooms.Invariant.{Inv}
use keep_talking_sfu.Server.Rooms.Takeover.{room_at, own_cases, stranger_refused}

module _ {EndpointId : Type 0} ⦃ids : EndpointIds EndpointId⦄ where
  -- The two ids are equal.
  abbrev pub is_same : EndpointId → EndpointId → Bool
  is_same a b = ite (ids.discrete a b) true false

  -- What a directed publish of a member of a room is answered.
  abbrev pub answer_to : EndpointId → EndpointId → Room EndpointId → Sent
  answer_to to sender room =
      if is_same to sender then refused no_such_recipient else elim (lookup ids.discrete to room) [
        | none ↦ refused no_such_recipient
        | some slot ↦ sent 1
      ]

module _ {EndpointId : Type 0} ⦃ids : EndpointIds EndpointId⦄ (peer_of : ℕ → EndpointId) where
  others_count-absent :
      (peer : EndpointId) (room : Room EndpointId)
      → lookup ids.discrete peer room ≡ none
      → others_count peer room ≡ length room
  unfolding lookup
  others_count-absent peer [] e = refl
  others_count-absent peer ((id, slot) ∷ room) e = ground (arith, others_count-absent peer room)

  others_count-present :
      (h : Handle EndpointId) (room : Room EndpointId)
      → AreOwn peer_of room
      → owns_slot room h ≡ true
      → others_count h.peer room + 1 ≡ length room
  unfolding owns_slot lookup
  others_count-present h [] v e = cc
  others_count-present h ((id, slot) ∷ room) v e =
      ground (arith, others_count-present h room v.2, others_count-absent h.peer room)

  own_room-member :
      (t : Topic) (h : Handle EndpointId) (w : World EndpointId)
      → is_member t h w.rooms ≡ true
      → own_room t h w.rooms ≡ some (room_at w.rooms t)
  unfolding own_room
  own_room-member t h w member =
      let (there, owner) = own_cases t h w.rooms member in rw (there, own_room) (ground arith)

  module _ (t : Topic) (h : Handle EndpointId) (w : World EndpointId) (v : Inv peer_of w.rooms)
      (member : is_member t h w.rooms ≡ true) where
    own_room-AreOwn : AreOwn peer_of (room_at w.rooms t)
    own_room-AreOwn = (v.rooms t (room_at w.rooms t) (own_cases t h w.rooms member).0).own

    -- In well-formed rooms, a publish of a member reaches each connection of another member once,
    -- on the lane asked for, and no other connection; it returns how many these are, one less than
    -- the room has, and leaves the rooms alone.
    pub publish_reaches :
        (lane : Lane) (d : Deliver) (c : ℕ)
        → let room = room_at w.rooms t in
          let w' = (publish t h lane d w).0 in
          ((publish t h lane d w).1 ≡ sent (length room - 1))
          × (w'.rooms ≡ w.rooms)
          × (w'.net.links c
              ≡ (if hears c h.peer room then (deliver lane d (w.net.links c)).0 else w.net.links c))
    unfolding publish
    publish_reaches lane d c =
        let room = room_at w.rooms t in
        rw (own_room-member t h w member, publish)
          (
            ap sent (
                omega (
                  arith,
                  fan_out_count room h.peer lane d w.net 0,
                  others_count-present h room own_room-AreOwn (own_cases t h w.rooms member).1,
                )),
            refl,
            fan_out-hears room h.peer lane d w.net 0 c
                (AreOwn-AreDistinct peer_of room own_room-AreOwn),
          )

  -- In well-formed rooms, of the connections that hear a publish only the recipient's hears a directed
  -- one.
  hears-lookup :
      (c : ℕ) (to except : EndpointId) (room : Room EndpointId)
      → AreOwn peer_of room
      → (hears c except room && is_same (peer_of c) to) ≡ (elim (lookup ids.discrete to room) [
        | none ↦ false
        | some slot ↦ not (is_same to except) && slot.handle.conn_id == c
      ])
  unfolding lookup
  hears-lookup c to except [] v = ground arith
  hears-lookup c to except ((j, slot) ∷ room) v = ground (arith, hears-lookup c to except room v.2)

  module _ (t : Topic) (h : Handle EndpointId) (w : World EndpointId) (v : Inv peer_of w.rooms)
      (to : EndpointId) (lane : Lane) (d : Deliver) (c : ℕ) where
    publish_to-member :
        (room : Room EndpointId)
        → own_room t h w.rooms ≡ some room
        → AreOwn peer_of room
        → ((publish_to t h to lane d w).1 ≡ answer_to to h.peer room)
          × ((publish_to t h to lane d w).0.rooms ≡ w.rooms)
          × ((publish_to t h to lane d w).0.net.links c ≡ (
              if hears c h.peer room && is_same (peer_of c) to
              then (deliver lane d (w.net.links c)).0
              else w.net.links c))
    unfolding publish_to
    publish_to-member room own mine =
        rw (own, publish_to, hears-lookup c to h.peer room mine)
          (elim (Option-cases (lookup ids.discrete to room)) [
            | inl absent ↦ rw (absent, answer_to) (ground arith, ground arith, ground arith)
            | inr (slot, there) ↦
                rw (there, answer_to)
                  (
                    ground arith,
                    ground arith,
                    ground (arith, links-deliver_to slot.handle.conn_id c lane d w.net),
                  )
          ])

    -- In well-formed rooms, whoever publishes to whom: a connection is sent the DELIVER once, on the
    -- lane asked for, if the publisher is a member, the connection is another member's and that one is
    -- the recipient; otherwise its queues stay as they are. The rooms stay as they are. The answer is
    -- 1 for another member as recipient, no such recipient for the publisher itself and for one who is
    -- not in the room, and not subscribed where the publisher is no member.
    pub publish_to_reaches :
        let room = room_at w.rooms t in
        let r = publish_to t h to lane d w in
        (r.1 ≡ (if is_member t h w.rooms then answer_to to h.peer room else refused not_subscribed))
        × (r.0.rooms ≡ w.rooms)
        × (r.0.net.links c ≡ (
            if is_member t h w.rooms && (hears c h.peer room && is_same (peer_of c) to)
            then (deliver lane d (w.net.links c)).0
            else w.net.links c))
    publish_to_reaches = elim (Bool-cases (is_member t h w.rooms)) [
      | inl member ↦ rw member (
          publish_to-member (room_at w.rooms t) (own_room-member t h w member)
            (own_room-AreOwn t h w v member))
      | inr out ↦
          let (left, announced, sent_all, same, targets) =
            stranger_refused t h w [] to lane d out in
          rw (out, same) (refl, refl, refl)
    ]
