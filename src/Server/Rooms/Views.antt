-- ===== src/Server/Rooms/Views.antt =====
-- src/server.rs, `Rooms::leave` and `announce`: the frames they push tell every other member exactly
-- what changed, so a client that follows them knows the room.
use keep_talking_sfu.Prelude.{
  ℕ, ◌≡◌, ◌∙◌, refl, sym, true, Bool-cases, Option, none, some, List, [], ◌∷◌, length, ◌==◌, ite,
  lookup, insert, remove, if_pos, lookup-insert, lookup-remove, arith, Option-cases, inl, inr,
  if◌then◌else◌,
}
use keep_talking_sfu.Prelude.Wire.{Bytes}
use keep_talking_sfu.Proto.Ids.{EndpointIds}
use keep_talking_sfu.Proto.Topic.{Topic}
use keep_talking_sfu.Proto.Topic
use keep_talking_sfu.Proto.ServerFrame.{Member, ServerFrame}
use keep_talking_sfu.Proto.ServerFrame
use keep_talking_sfu.Server.Outbound.{Outbound, push_frame}
use keep_talking_sfu.Server.World.{Handle, Slot, Room, Net}
use keep_talking_sfu.Server.Rooms.{
  World, put_room, vacate, owns_slot, set_blob, is_member, leave, announce,
}
use keep_talking_sfu.Server.Rooms.Fanout.{hears, broadcast-hears}
use keep_talking_sfu.Server.Rooms.Members.{AreOwn-AreDistinct, remove-AreOwn, set_blob-AreOwn}
use keep_talking_sfu.Server.Rooms.Shards.{IsSharded, get_room-drop_room}
use keep_talking_sfu.Server.Rooms.Invariant.{Inv}
use keep_talking_sfu.Server.Rooms.Takeover.{room_at, own_cases, get_room-put_room_self}

length-zero {ℓ} : {A : Type ℓ} (xs : List A) → length xs ≡ 0 → xs ≡ []
length-zero [] e = refl
length-zero (x ∷ xs) e = absurd (omega arith)

module _ {EndpointId : Type 0} ⦃ids : EndpointIds EndpointId⦄ where
  -- A client's view of a room: the blob of each member.
  abbrev pub blob_of : Room EndpointId → EndpointId → Option Bytes
  blob_of room id = elim (lookup ids.discrete id room) [ none ↦ none | some slot ↦ some slot.blob ]

  -- The blob that a snapshot lists for a member.
  abbrev pub listed : List (Member EndpointId) → EndpointId → Option Bytes
  listed [] id = none
  listed (m ∷ ms) id = ite (ids.discrete m.id id) (some m.blob) (listed ms id)

  -- The view of a client after a frame.
  abbrev pub follow :
      ServerFrame EndpointId → (EndpointId → Option Bytes) → EndpointId → Option Bytes
  follow (ServerFrame.joined t who) view id = ite (ids.discrete who id) (some []) (view id)
  follow (ServerFrame.left t who) view id = ite (ids.discrete who id) none (view id)
  follow (ServerFrame.presence t who blob) view id = ite (ids.discrete who id) (some blob) (view id)
  follow (ServerFrame.snapshot t more ms) view id = listed ms id
  follow _ view id = view id

  pub blob_of-insert :
      (k j : EndpointId) (slot : Slot EndpointId) (room : Room EndpointId)
      → blob_of (insert ids.discrete k slot room) j
        ≡ ite (ids.discrete k j) (some slot.blob) (blob_of room j)
  blob_of-insert k j slot room = ground (arith, lookup-insert ids.discrete k j slot room)

  blob_of-remove :
      (k j : EndpointId) (room : Room EndpointId)
      → blob_of (remove ids.discrete k room) j ≡ ite (ids.discrete k j) none (blob_of room j)
  blob_of-remove k j room = ground (arith, lookup-remove ids.discrete k j room)

module _ {EndpointId : Type 0} ⦃ids : EndpointIds EndpointId⦄ (peer_of : ℕ → EndpointId) where
  blob_of-set_blob :
      (h : Handle EndpointId) (j : EndpointId) (blob : Bytes) (room : Room EndpointId)
      → owns_slot room h ≡ true
      → blob_of (set_blob h.peer blob room) j
        ≡ ite (ids.discrete h.peer j) (some blob) (blob_of room j)
  unfolding owns_slot set_blob
  blob_of-set_blob h j blob room owner = elim (Option-cases (lookup ids.discrete h.peer room)) [
    | inl absent ↦ ground arith
    | inr (slot, there) ↦
        rw (there, set_blob) (blob_of-insert h.peer j (record slot { blob = blob }) room)
  ]

  -- The queues of a connection after the members of `room` but `peer` were told a frame.
  abbrev pub told :
      ServerFrame EndpointId
      → EndpointId
      → Room EndpointId
      → ℕ
      → Net EndpointId
      → Outbound EndpointId
  told f peer room c net =
      if hears c peer room then push_frame (ServerFrame.encode f) (net.links c) else net.links c

  room_at-put_room :
      (w : World EndpointId) (t : Topic) (room : Room EndpointId)
      → IsSharded w.rooms
      → room_at (put_room w.rooms t room) t ≡ room
  room_at-put_room w t room h = rw (get_room-put_room_self w.rooms t room h, room_at) refl

  module _ (t : Topic) (h : Handle EndpointId) (w : World EndpointId) (v : Inv peer_of w.rooms)
      (c : ℕ) (j : EndpointId) where
    -- In well-formed rooms, an announce of a member succeeds: each connection of another member is
    -- told PRESENCE once, no other connection hears of it, and a client that follows that frame has
    -- the view of the new room.
    pub announce-told :
        (blob : Bytes)
        → is_member t h w.rooms ≡ true
        → let presence : ServerFrame EndpointId = ServerFrame.presence t h.peer blob in
          let w' = (announce t h blob w).0 in
          ((announce t h blob w).1 ≡ true)
          × (w'.net.links c ≡ told presence h.peer (room_at w'.rooms t) c w.net)
          × (blob_of (room_at w'.rooms t) j ≡ follow presence (blob_of (room_at w.rooms t)) j)
    unfolding announce
    announce-told blob member =
        let presence : ServerFrame EndpointId = ServerFrame.presence t h.peer blob in
        let (there, owner) = own_cases t h w.rooms member in
        let room = room_at w.rooms t in
        let room' = set_blob h.peer blob room in
        let own = set_blob-AreOwn peer_of h.peer blob room (v.rooms t room there).own in
        rw (there, announce)
          (rw owner (
            rw (room_at-put_room w t room' v.sharded) (
              refl,
              broadcast-hears room' h.peer (ServerFrame.encode presence) w.net c
                  (AreOwn-AreDistinct peer_of room' own),
              blob_of-set_blob h j blob room owner,
            )))

    room_at-vacated :
        (room : Room EndpointId)
        → room_at (vacate t h room w).0.rooms t ≡ remove ids.discrete h.peer room
    unfolding vacate
    room_at-vacated room = elim (Bool-cases (length (remove ids.discrete h.peer room) == 0)) [
      | inl empty ↦ rw empty (
          rw
            (
              get_room-drop_room w.rooms t t v.sharded ∙ if_pos (Topic.discrete t t) refl _ _,
              room_at,
            )
            (sym (length-zero _ (ground (arith, empty)))))
      | inr some_left ↦
          rw some_left (room_at-put_room w t (remove ids.discrete h.peer room) v.sharded)
    ]

    -- In well-formed rooms, a leave of a member succeeds and returns how many are left: each
    -- connection of another member is told LEFT once, no other connection hears of it, and a client
    -- that follows that frame has the view of the new room.
    pub leave-told :
        is_member t h w.rooms ≡ true
        → let left : ServerFrame EndpointId = ServerFrame.left t h.peer in
          let w' = (leave t h w).0 in
          ((leave t h w).1 ≡ some (length (room_at w'.rooms t)))
          × (w'.net.links c ≡ told left h.peer (room_at w'.rooms t) c w.net)
          × (blob_of (room_at w'.rooms t) j ≡ follow left (blob_of (room_at w.rooms t)) j)
    unfolding leave
    leave-told member =
        let left : ServerFrame EndpointId = ServerFrame.left t h.peer in
        let (there, owner) = own_cases t h w.rooms member in
        let room = room_at w.rooms t in
        let room' = remove ids.discrete h.peer room in
        let own = remove-AreOwn peer_of h.peer room (v.rooms t room there).own in
        rw (there, leave)
          (rw owner (
            rw (room_at-vacated room) (
              unfold vacate in
              (
                refl,
                broadcast-hears room' h.peer (ServerFrame.encode left) w.net c
                    (AreOwn-AreDistinct peer_of room' own),
                blob_of-remove h.peer j room,
              ))))
