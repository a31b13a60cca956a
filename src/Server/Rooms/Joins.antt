-- ===== src/Server/Rooms/Joins.antt =====
-- src/server.rs, `Rooms::join`: what the joiner and the other members are told.
use keep_talking_sfu.Prelude.{
  ℕ, ◌+◌, ◌≡◌, ◌∙◌, refl, ap, false, none, some, [], ◌∷◌, length, ◌==◌, ite, lookup, insert, subst,
  arith, Option-cases, inl, inr, if◌then◌else◌,
}
use keep_talking_sfu.Prelude.Wire.{Bytes}
use keep_talking_sfu.Proto.Ids.{EndpointIds}
use keep_talking_sfu.Proto.Topic.{Topic}
use keep_talking_sfu.Proto.ServerFrame.{Member, ServerFrame}
use keep_talking_sfu.Proto.ServerFrame
use keep_talking_sfu.Proto.Snapshot.{snapshot_wire_len}
use keep_talking_sfu.Server.Outbound.{Outbound, push_session, push_frame}
use keep_talking_sfu.Server.Outbound
use keep_talking_sfu.Server.World.{Handle, Slot, Room, on_link}
use keep_talking_sfu.Server.Rooms.{
  Rooms, World, get_room, put_room, or_default, enter, join_room, others, join,
}
use keep_talking_sfu.Server.Rooms.Fanout.{hears, broadcast-hears}
use keep_talking_sfu.Server.Rooms.Members.{AreOwn, AreOwn-AreDistinct, insert-AreOwn}
use keep_talking_sfu.Server.Rooms.Invariant.{Inv}
use keep_talking_sfu.Server.Rooms.Takeover.{room_at, join-room_at}
use keep_talking_sfu.Server.Rooms.Views.{blob_of, listed, follow, told, blob_of-insert}

module _ {EndpointId : Type 0} ⦃ids : EndpointIds EndpointId⦄ where
  -- The members of a snapshot are the members of the room but the one that it goes to.
  pub listed-others :
      (peer id : EndpointId) (room : Room EndpointId)
      → listed (others peer room) id ≡ ite (ids.discrete peer id) none (blob_of room id)
  unfolding others lookup
  listed-others peer id [] = ground arith
  listed-others peer id ((j, slot) ∷ room) = ground (arith, listed-others peer id room)

  length-others_absent :
      (peer : EndpointId) (room : Room EndpointId)
      → lookup ids.discrete peer room ≡ none
      → length (others peer room) ≡ length room
  unfolding others lookup
  length-others_absent peer [] h = refl
  length-others_absent peer ((j, slot) ∷ room) h = ground (arith, length-others_absent peer room)

module _ {EndpointId : Type 0} ⦃ids : EndpointIds EndpointId⦄ (peer_of : ℕ → EndpointId) where
  hears_own :
      (c : ℕ) (room : Room EndpointId) → AreOwn peer_of room → hears c (peer_of c) room ≡ false
  hears_own c [] v = refl
  hears_own c ((id, slot) ∷ room) v = ground (arith, hears_own c room v.2)

  -- A snapshot lists all members but the one that it goes to.
  length-others-insert :
      (peer : EndpointId) (slot : Slot EndpointId) (room : Room EndpointId)
      → AreOwn peer_of room
      → length (insert ids.discrete peer slot room)
        ≡ length (others peer (insert ids.discrete peer slot room)) + 1
  unfolding others insert
  length-others-insert peer slot [] v = ground arith
  length-others-insert peer slot ((j, other) ∷ room) v =
      ground (arith, length-others-insert peer slot room v.2, length-others_absent peer room)

  room_at-AreOwn :
      (t : Topic) (w : World EndpointId) → Inv peer_of w.rooms → AreOwn peer_of (room_at w.rooms t)
  room_at-AreOwn t w v = elim (Option-cases (get_room w.rooms t)) [
    | inl absent ↦ rw (absent, room_at) tt
    | inr (room, there) ↦ rw (there, room_at) (v.rooms t room there).own
  ]

  module _ (t : Topic) (h : Handle EndpointId) (w : World EndpointId) (v : Inv peer_of w.rooms)
      (c : ℕ) (j : EndpointId) where
    snapshot_first :
        (room : Room EndpointId) (f : Outbound EndpointId → Outbound EndpointId) (frame : Bytes)
        → hears h.conn_id h.peer room ≡ false
        → (if hears c h.peer room
            then push_frame frame ((on_link h.conn_id f w.net).links c)
            else (on_link h.conn_id f w.net).links c)
          ≡ (if h.conn_id == c
              then f (w.net.links c)
              else if hears c h.peer room
              then push_frame frame (w.net.links c)
              else w.net.links c)
    unfolding on_link
    snapshot_first room f frame quiet = ground arith

    -- The queues after the broadcast of a JOINED, and after the snapshot.
    enter_links :
        (r : Rooms EndpointId) (room : Room EndpointId)
        → peer_of h.conn_id ≡ h.peer
        → AreOwn peer_of room
        → let joined : ServerFrame EndpointId = ServerFrame.joined t h.peer in
          let room' = insert ids.discrete h.peer (record { handle = h; blob = [] }) room in
          let ms = others h.peer room' in
          (enter r t h room w.net).1.links c ≡ (
            if h.conn_id == c
            then push_session
                (Outbound.snapshot t ms)
                (snapshot_wire_len ms r.chunk_entries)
                (w.net.links c)
            else told peer_of joined h.peer room' c w.net)
    unfolding enter
    enter_links r room auth own =
        let joined : ServerFrame EndpointId = ServerFrame.joined t h.peer in
        let room' = insert ids.discrete h.peer (record { handle = h; blob = [] }) room in
        let ms = others h.peer room' in
        let own' =
          insert-AreOwn peer_of h.peer (record { handle = h; blob = [] }) room (refl, auth) own in
        let net' =
          on_link h.conn_id
            (push_session (Outbound.snapshot t ms) (snapshot_wire_len ms r.chunk_entries)) w.net in
        broadcast-hears room' h.peer (ServerFrame.encode joined) net' c
          (AreOwn-AreDistinct peer_of room' own')
        ∙ snapshot_first room'
            (push_session (Outbound.snapshot t ms) (snapshot_wire_len ms r.chunk_entries))
            (ServerFrame.encode joined)
            (subst (λ p. hears h.conn_id p room' ≡ false) auth (hears_own h.conn_id room' own'))

    join_room_links :
        (r : Rooms EndpointId) (room : Room EndpointId) (n : ℕ)
        → (join_room t h w r room).1 ≡ some n
        → (join_room t h w r room).0.net ≡ (enter r t h room w.net).1
    unfolding join_room
    join_room_links r room n e = ground arith

    join_links :
        (n : ℕ)
        → peer_of h.conn_id ≡ h.peer
        → (join t h w).1 ≡ some n
        → let joined : ServerFrame EndpointId = ServerFrame.joined t h.peer in
          let room' =
            insert ids.discrete h.peer (record { handle = h; blob = [] }) (room_at w.rooms t) in
          let ms = others h.peer room' in
          (join t h w).0.net.links c ≡ (
            if h.conn_id == c
            then push_session
                (Outbound.snapshot t ms)
                (snapshot_wire_len ms w.rooms.chunk_entries)
                (w.net.links c)
            else told peer_of joined h.peer room' c w.net)
    unfolding join or_default
    join_links n auth = elim (Option-cases (get_room w.rooms t)) [
      | inl absent ↦
          rw (absent, or_default, room_at)
            (λ e.
              ap (λ net. net.links c) (join_room_links (put_room w.rooms t []) [] n e)
              ∙ unfold put_room in enter_links (put_room w.rooms t []) [] auth tt)
      | inr (room, there) ↦
          rw (there, or_default, room_at)
            (λ e.
              ap (λ net. net.links c) (join_room_links w.rooms room n e)
              ∙ enter_links w.rooms room auth (v.rooms t room there).own)
    ]

    -- In well-formed rooms, a join by a handle of the authenticated peer that is not refused
    -- returns how many the room then has. Its own connection is sent a snapshot with the estimated
    -- size, which lists each other member once, with the blob that the room had for it, and nobody
    -- else. Each connection of another member is told JOINED once, no other connection hears of it,
    -- and a client that follows that frame has the view of the new room.
    pub join-told :
        (n : ℕ)
        → peer_of h.conn_id ≡ h.peer
        → (join t h w).1 ≡ some n
        → let joined : ServerFrame EndpointId = ServerFrame.joined t h.peer in
          let w' = (join t h w).0 in
          let ms = others h.peer (room_at w'.rooms t) in
          (n ≡ length (room_at w'.rooms t))
          × (w'.net.links c ≡ (
              if h.conn_id == c
              then push_session
                  (Outbound.snapshot t ms)
                  (snapshot_wire_len ms w.rooms.chunk_entries)
                  (w.net.links c)
              else told peer_of joined h.peer (room_at w'.rooms t) c w.net))
          × (listed ms j ≡ ite (ids.discrete h.peer j) none (blob_of (room_at w.rooms t) j))
          × (n ≡ length ms + 1)
          × (blob_of (room_at w'.rooms t) j ≡ follow joined (blob_of (room_at w.rooms t)) j)
    join-told n auth e =
        let (there, size) = join-room_at t h w n v.sharded e in
        let room = room_at w.rooms t in
        let slot : Slot EndpointId = record { handle = h; blob = [] } in
        rw (there, room_at)
          (
            size,
            join_links n auth e,
            listed-others h.peer j (insert ids.discrete h.peer slot room)
                ∙ ground (arith, blob_of-insert h.peer j slot room),
            size ∙ length-others-insert h.peer slot room (room_at-AreOwn t w v),
            blob_of-insert h.peer j slot room,
          )
