-- ===== src/Server/Session/Leaving.antt =====
-- The slots that a connection gives up, on UNSUBSCRIBE and when it ends.
use keep_talking_sfu.Prelude.{
  ◌≡◌, ◌∙◌, refl, false, not, Bool-cases, List, [], ◌∷◌, ◌&&◌, ite, arith, inl, inr, ◌⊎◌,
  Option-cases, remove, lookup-remove_self,
}
use keep_talking_sfu.Proto.Ids.{EndpointIds}
use keep_talking_sfu.Proto.Topic.{Topic, is_zero, zero_topic}
use keep_talking_sfu.Proto.Topic
use keep_talking_sfu.Server.World.{Handle, Room}
use keep_talking_sfu.Server.Rooms.{World, get_room, owns_slot, is_member, vacate, leave}
use keep_talking_sfu.Server.Rooms.Shards.{
  IsSharded, get_room-put_room, get_room-drop_room, put_room-IsSharded, drop_room-IsSharded,
}
use keep_talking_sfu.Server.Bucket.{Doubles}
use keep_talking_sfu.Server.Session.{Session, contains, leave_each, leave_all}

module _ {EndpointId : Type 0} ⦃ids : EndpointIds EndpointId⦄ where
  owns_slot-removed :
      (h : Handle EndpointId) (room : Room EndpointId)
      → owns_slot (remove ids.discrete h.peer room) h ≡ false
  unfolding owns_slot
  owns_slot-removed h room = rw (lookup-remove_self ids.discrete h.peer room, owns_slot) refl

  vacate-is_member :
      (t u : Topic) (h : Handle EndpointId) (w : World EndpointId) (room : Room EndpointId)
      → IsSharded w.rooms
      → is_member t h (vacate u h room w).0.rooms
        ≡ ite (Topic.discrete u t) false (is_member t h w.rooms)
  unfolding vacate is_member
  vacate-is_member t u h w room sharded = ground (
    arith,
    get_room-drop_room w.rooms u t sharded,
    get_room-put_room w.rooms u t (remove ids.discrete h.peer room) sharded,
    owns_slot-removed h room,
  )

  vacate-IsSharded :
      (u : Topic) (h : Handle EndpointId) (room : Room EndpointId) (w : World EndpointId)
      → IsSharded w.rooms
      → IsSharded (vacate u h room w).0.rooms
  unfolding vacate
  vacate-IsSharded u h room w sharded = ground (
    arith,
    drop_room-IsSharded w.rooms u sharded,
    put_room-IsSharded w.rooms u (remove ids.discrete h.peer room) sharded,
  )

  -- A leave does nothing for a handle that is no member, and else vacates its slot.
  leave_cases :
      (u : Topic) (h : Handle EndpointId) (w : World EndpointId)
      → ((leave u h w).0 ≡ w) × (is_member u h w.rooms ≡ false)
        ⊎ ((room : Room EndpointId) × ((leave u h w).0 ≡ (vacate u h room w).0))
  unfolding leave is_member
  leave_cases u h w = elim (Option-cases (get_room w.rooms u)) [
    | inl absent ↦ rw (absent, leave, is_member) (inl (refl, refl))
    | inr (room, there) ↦
        rw (there, leave, is_member)
          (elim (Bool-cases (owns_slot room h)) [
            | inl owner ↦ rw owner (inr (room, refl))
            | inr stranger ↦ rw stranger (inl (refl, refl))
          ])
  ]

  pub leave-is_member :
      (t u : Topic) (h : Handle EndpointId) (w : World EndpointId)
      → IsSharded w.rooms
      → (is_member t h (leave u h w).0.rooms
          ≡ ite (Topic.discrete u t) false (is_member t h w.rooms))
        × IsSharded (leave u h w).0.rooms
  leave-is_member t u h w sharded = elim (leave_cases u h w) [
    | inl (same, out) ↦ rw same (ground (arith, out), sharded)
    | inr (room, e) ↦
        rw e (vacate-is_member t u h w room sharded, vacate-IsSharded u h room w sharded)
  ]

  leave_each-is_member :
      (t : Topic) (h : Handle EndpointId) (topics : List Topic) (w : World EndpointId)
      → IsSharded w.rooms
      → is_member t h (leave_each h topics w).rooms
        ≡ (is_member t h w.rooms && not (contains t topics))
  unfolding leave_each
  leave_each-is_member t h [] w sharded = ground arith
  leave_each-is_member t h (u ∷ topics) w sharded =
      let (gone, kept) = leave-is_member t u h w sharded in
      leave_each-is_member t h topics (leave u h w).0 kept ∙ ground (arith, gone)

module _ {EndpointId F : Type 0} ⦃ids : EndpointIds EndpointId⦄ ⦃f64 : Doubles F⦄ where
  -- When a connection leaves all its topics, in rooms with all their shards, it holds no slot in
  -- the room of any of them, and holds the slots of other topics as before; its set of topics is
  -- empty.
  pub leave_all-is_member :
      (t : Topic) (s : Session EndpointId F)
      → IsSharded s.world.rooms
      → (is_member t s.handle (leave_all s).world.rooms
          ≡ (is_member t s.handle s.world.rooms && not (contains t s.subscribed)))
        × ((leave_all s).subscribed ≡ [])
  unfolding leave_all
  leave_all-is_member t s sharded =
      (leave_each-is_member t s.handle s.subscribed s.world sharded, refl)
