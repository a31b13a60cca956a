-- ===== src/Server/Rooms/History.antt =====
-- Every history of calls that the server can make, from the empty rooms on.
use keep_talking_sfu.Prelude.{ℕ, ◌≡◌, ◌≤◌, ◌<◌, refl, some, length, max, ◌∙◌, arith, subst}
use keep_talking_sfu.Prelude.Wire.{Bytes}
use keep_talking_sfu.Proto.Ids.{EndpointIds}
use keep_talking_sfu.Proto.Lane.{Lane}
use keep_talking_sfu.Proto.Topic.{Topic}
use keep_talking_sfu.Server.Deliver.{Deliver}
use keep_talking_sfu.Server.World.{Handle, Room, Net}
use keep_talking_sfu.Server.Rooms.{
  World, new, get_room, join, leave, announce, publish, publish_to, or_default, join_room, vacate,
  put_room, drop_room,
}
use keep_talking_sfu.Server.Rooms.Fanout.{AreDistinct}
use keep_talking_sfu.Server.Rooms.Members.{AreOwn-AreDistinct}
use keep_talking_sfu.Server.Rooms.Invariant.{Inv, join-Inv, leave-Inv, announce-Inv, new-Inv}

module _ {EndpointId : Type 0} ⦃ids : EndpointIds EndpointId⦄ (peer_of : ℕ → EndpointId) where
  -- One call, by a handle whose peer is the authenticated peer of its connection; the last
  -- constructor is whatever the writers do with the queues.
  pub data Step : World EndpointId → World EndpointId → Type 0 where
    joins :
        (t : Topic) (h : Handle EndpointId) (w : World EndpointId)
        → peer_of h.conn_id ≡ h.peer
        → Step w (join t h w).0
    leaves :
        (t : Topic) (h : Handle EndpointId) (w : World EndpointId)
        → peer_of h.conn_id ≡ h.peer
        → Step w (leave t h w).0
    announces :
        (t : Topic) (h : Handle EndpointId) (blob : Bytes) (w : World EndpointId)
        → peer_of h.conn_id ≡ h.peer
        → Step w (announce t h blob w).0
    publishes :
        (t : Topic) (h : Handle EndpointId) (lane : Lane) (d : Deliver) (w : World EndpointId)
        → Step w (publish t h lane d w).0
    publishes_to :
        (t : Topic) (h : Handle EndpointId) (to : EndpointId) (lane : Lane) (d : Deliver)
        (w : World EndpointId)
        → Step w (publish_to t h to lane d w).0
    drains : (net : Net EndpointId) (w : World EndpointId) → Step w (record w { net = net })

  pub data Reach (start : World EndpointId) : World EndpointId → Type 0 where
    here : Reach start start
    then_ : {v w : World EndpointId} → Reach start v → Step v w → Reach start w

  publish-rooms :
      (t : Topic) (h : Handle EndpointId) (lane : Lane) (d : Deliver) (w : World EndpointId)
      → (publish t h lane d w).0.rooms ≡ w.rooms
  unfolding publish
  publish-rooms t h lane d w = ground arith

  publish_to-rooms :
      (t : Topic) (h : Handle EndpointId) (to : EndpointId) (lane : Lane) (d : Deliver)
      (w : World EndpointId)
      → (publish_to t h to lane d w).0.rooms ≡ w.rooms
  unfolding publish_to
  publish_to-rooms t h to lane d w = ground arith

  Step-Inv : {v w : World EndpointId} → Step v w → Inv peer_of v.rooms → Inv peer_of w.rooms
  Step-Inv (joins t h w auth) v = join-Inv peer_of t h w auth v
  Step-Inv (leaves t h w auth) v = leave-Inv peer_of t h w auth v
  Step-Inv (announces t h blob w auth) v = announce-Inv peer_of t h w auth v blob
  Step-Inv (publishes t h lane d w) v = rw (publish-rooms t h lane d w) v
  Step-Inv (publishes_to t h to lane d w) v = rw (publish_to-rooms t h to lane d w) v
  Step-Inv (drains net w) v = v

  -- From well-formed rooms every history leads to well-formed rooms.
  pub Reach-Inv_rooms :
      {start w : World EndpointId} → Inv peer_of start.rooms → Reach start w → Inv peer_of w.rooms
  Reach-Inv_rooms v here = v
  Reach-Inv_rooms v (then_ r s) = Step-Inv s (Reach-Inv_rooms v r)

  join-max :
      (t : Topic) (h : Handle EndpointId) (w : World EndpointId)
      → (join t h w).0.rooms.max_members ≡ w.rooms.max_members
  unfolding join join_room or_default put_room
  join-max t h w = ground arith

  leave-max :
      (t : Topic) (h : Handle EndpointId) (w : World EndpointId)
      → (leave t h w).0.rooms.max_members ≡ w.rooms.max_members
  unfolding leave vacate put_room drop_room
  leave-max t h w = ground arith

  announce-max :
      (t : Topic) (h : Handle EndpointId) (blob : Bytes) (w : World EndpointId)
      → (announce t h blob w).0.rooms.max_members ≡ w.rooms.max_members
  unfolding announce put_room
  announce-max t h blob w = ground arith

  Step-max : {v w : World EndpointId} → Step v w → w.rooms.max_members ≡ v.rooms.max_members
  Step-max (joins t h w auth) = join-max t h w
  Step-max (leaves t h w auth) = leave-max t h w
  Step-max (announces t h blob w auth) = announce-max t h blob w
  Step-max (publishes t h lane d w) = rw (publish-rooms t h lane d w) refl
  Step-max (publishes_to t h to lane d w) = rw (publish_to-rooms t h to lane d w) refl
  Step-max (drains net w) = refl

  Reach-max :
      {start w : World EndpointId} → Reach start w → w.rooms.max_members ≡ start.rooms.max_members
  Reach-max here = refl
  Reach-max (then_ r s) = Step-max s ∙ Reach-max r

  -- After any history that starts at new rooms, of calls by handles of authenticated peers and of
  -- changes to the queues, no room is empty, none has more members than the configured maximum (1
  -- if that is 0), and no two members of a room share a connection.
  pub rooms_bounded :
      (members entries : ℕ) (net : Net EndpointId) (w : World EndpointId) (t : Topic)
      (room : Room EndpointId)
      → Reach (record { rooms = new members entries; net = net }) w
      → get_room w.rooms t ≡ some room
      → (0 < length room) × (length room ≤ max members 1) × AreDistinct room
  unfolding new
  rooms_bounded members entries net w t room r there =
      let ok = (Reach-Inv_rooms (new-Inv peer_of members entries) r).rooms t room there in
      (
        ok.occupied,
        subst (λ n. length room ≤ n) (Reach-max r) ok.in_bound,
        AreOwn-AreDistinct peer_of room ok.own,
      )
