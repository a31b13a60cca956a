-- ===== src/Server/Connection/Membership.antt =====
-- A connection holds slots only in the rooms of the topics that its session has subscribed to.
use keep_talking_sfu.Prelude.{
  ℕ, ◌≡◌, ◌≢◌, ◌∙◌, refl, sym, subst, true, Bool-cases, Option-cases, inl, inr, Option, none, some,
  List, [], ◌∷◌, length, arith, ltb, leb, lookup-insert_self, insert, lookup,
}
use keep_talking_sfu.Prelude.Wire.{Bytes}
use keep_talking_sfu.Proto.Ids.{EndpointIds}
use keep_talking_sfu.Proto.Limits.{max_announce_len}
use keep_talking_sfu.Proto.Topic.{Topic, is_zero}
use keep_talking_sfu.Proto.Topic
use keep_talking_sfu.Proto.ClientFrame.{ClientFrame}
use keep_talking_sfu.Server.Bucket.{Doubles, try_take}
use keep_talking_sfu.Server.Limits.{Limits}
use keep_talking_sfu.Server.World.{Handle}
use keep_talking_sfu.Server.Rooms.{
  Rooms, World, get_room, put_room, owns_slot, is_member, set_blob, or_default, enter, join_room,
  join, leave, announce,
}
use keep_talking_sfu.Server.Rooms.Shards.{IsSharded, get_room-put_room, put_room-IsSharded}
use keep_talking_sfu.Server.Rooms.Invariant.{join_refused}
use keep_talking_sfu.Server.Session.{
  Session, contains, without, answer, rate_limited, take_publish, joined, handle_subscribe,
  handle_unsubscribe, handle_announce, handle_frame,
}
use keep_talking_sfu.Server.Session.Subscriptions.{IsSession, contains-without}
use keep_talking_sfu.Server.Session.Leaving.{leave-is_member}

module _ {EndpointId : Type 0} ⦃ids : EndpointIds EndpointId⦄ where
  put_room-is_member :
      (t j : Topic) (h : Handle EndpointId) (r : Rooms EndpointId) (room : List _)
      → IsSharded r
      → t ≢ j
      → is_member j h (put_room r t room) ≡ is_member j h r
  unfolding is_member
  put_room-is_member t j h r room sharded ne = ground (arith, get_room-put_room r t j room sharded)

  join_room_elsewhere :
      (t j : Topic) (h g : Handle EndpointId) (w : World EndpointId) (r : Rooms EndpointId)
      (room : List _)
      → IsSharded r
      → t ≢ j
      → is_member j h (join_room t g w r room).0.rooms ≡ is_member j h r
  unfolding join_room enter
  join_room_elsewhere t j h g w r room sharded ne = ground (
    arith,
    put_room-is_member t j h r (insert ids.discrete g.peer (record { handle = g; blob = [] }) room)
        sharded ne,
  )

  -- A join in one room leaves the slots in the others.
  join_elsewhere :
      (t j : Topic) (h g : Handle EndpointId) (w : World EndpointId)
      → IsSharded w.rooms
      → t ≢ j
      → is_member j h (join t g w).0.rooms ≡ is_member j h w.rooms
  unfolding join or_default
  join_elsewhere t j h g w sharded ne = elim (Option-cases (get_room w.rooms t)) [
    | inl absent ↦
        rw (absent, or_default)
          (join_room_elsewhere t j h g w (put_room w.rooms t []) []
              (put_room-IsSharded w.rooms t [] sharded) ne
            ∙ put_room-is_member t j h w.rooms [] sharded ne)
    | inr (room, there) ↦
        rw (there, or_default) (join_room_elsewhere t j h g w w.rooms room sharded ne)
  ]

  owns_slot-set_blob :
      (h : Handle EndpointId) (blob : Bytes) (room : List _)
      → owns_slot (set_blob h.peer blob room) h ≡ owns_slot room h
  unfolding owns_slot set_blob
  owns_slot-set_blob h blob room = elim (Option-cases (lookup ids.discrete h.peer room)) [
    | inl absent ↦ rw (absent, set_blob) (rw (absent, owns_slot) refl)
    | inr (slot, there) ↦
        rw (there, set_blob, owns_slot)
          (rw (lookup-insert_self ids.discrete h.peer (record slot { blob = blob }) room, owns_slot)
            refl)
  ]

  announce-is_member :
      (t j : Topic) (h : Handle EndpointId) (blob : Bytes) (w : World EndpointId)
      → IsSharded w.rooms
      → is_member j h (announce t h blob w).0.rooms ≡ is_member j h w.rooms
  unfolding announce is_member
  announce-is_member t j h blob w sharded = elim (Option-cases (get_room w.rooms t)) [
    | inl absent ↦ rw (absent, announce) refl
    | inr (room, there) ↦
        rw (there, announce)
          (ground (
            arith,
            there,
            get_room-put_room w.rooms t j (set_blob h.peer blob room) sharded,
            owns_slot-set_blob h blob room,
          ))
  ]

module _ {EndpointId : Type 0} ⦃ids : EndpointIds EndpointId⦄ where
  -- A handle holds slots only in the rooms of these topics.
  abbrev pub Tracks : Handle EndpointId → List Topic → Rooms EndpointId → Type 0
  Tracks h topics r = (j : Topic) → is_member j h r ≡ true → contains j topics ≡ true

  joined-Tracks :
      (t : Topic) (h : Handle EndpointId) (topics : List Topic) (w : World EndpointId)
      → IsSharded w.rooms
      → Tracks h topics w.rooms
      → Tracks h (t ∷ topics) (join t h w).0.rooms
  joined-Tracks t h topics w sharded tracks j member = elim (Topic.discrete t j) [
    | yes same ↦ ground (arith, same)
    | no other ↦
        let still = tracks j (sym (join_elsewhere t j h h w sharded other) ∙ member) in
        ground (arith, other, still)
  ]

  left-Tracks :
      (t : Topic) (h : Handle EndpointId) (topics : List Topic) (w : World EndpointId)
      → IsSharded w.rooms
      → Tracks h topics w.rooms
      → Tracks h (without t topics) (leave t h w).0.rooms
  left-Tracks t h topics w sharded tracks j member =
      let gone = (leave-is_member j t h w sharded).0 in
      elim (Topic.discrete t j) [
        | yes same ↦ absurd (ground (arith, gone, member, same))
        | no other ↦
            let still = tracks j (ground (arith, gone, member)) in
            ground (arith, contains-without j t topics, other, still)
      ]

module _ {EndpointId F : Type 0} ⦃ids : EndpointIds EndpointId⦄ where
  -- The session's handle holds slots only in the rooms of its subscribed topics.
  abbrev pub IsTracked : Session EndpointId F → Type 0
  IsTracked s = Tracks s.handle s.subscribed s.world.rooms

module _ {EndpointId F : Type 0} ⦃ids : EndpointIds EndpointId⦄ ⦃f64 : Doubles F⦄
    (peer_of : ℕ → EndpointId) (limits : Limits F) where
  joined-IsTracked :
      (t : Topic) (s : Session EndpointId F) (r : World EndpointId × Option ℕ)
      → Tracks s.handle (t ∷ s.subscribed) r.0.rooms
      → (r.1 ≡ none → r.0 ≡ s.world)
      → IsTracked s
      → IsTracked (joined t r s)
  unfolding joined answer
  joined-IsTracked t s (w, some n) tracks same h = tracks
  joined-IsTracked t s (w, none) tracks same h =
      subst (λ w. Tracks s.handle s.subscribed w.rooms) (sym (same refl)) h

  subscribe-IsTracked :
      (now : ℕ) (t : Topic) (s : Session EndpointId F)
      → IsSession peer_of limits s
      → IsTracked s
      → IsTracked (handle_subscribe limits now t s)
  unfolding handle_subscribe answer rate_limited
  subscribe-IsTracked now t s v h =
      let (bucket, allowed) = try_take now 0 s.join_rate in
      let s' = record s { join_rate = bucket } in
      elim (Bool-cases (contains t s.subscribed)) [
        | inl known ↦ rw known h
        | inr unknown ↦ rw unknown (elim (Bool-cases (is_zero t)) [
          | inl reserved ↦ rw reserved h
          | inr other ↦
              rw other
                (elim (Bool-cases (leb limits.max_topics_per_connection (length s.subscribed))) [
                  | inl many ↦ rw many h
                  | inr few ↦ rw few (elim (Bool-cases allowed) [
                    | inl granted ↦ rw granted (
                        joined-IsTracked t s' (join t s.handle s.world)
                          (joined-Tracks t s.handle s.subscribed s.world v.rooms.sharded h)
                          (join_refused peer_of t s.handle s.world v.auth v.rooms) h)
                    | inr denied ↦ rw denied h
                  ])
                ])
        ])
      ]

  unsubscribe-IsTracked :
      (t : Topic) (s : Session EndpointId F)
      → IsSession peer_of limits s
      → IsTracked s
      → IsTracked (handle_unsubscribe t s)
  unfolding handle_unsubscribe
  unsubscribe-IsTracked t s v h = elim (Bool-cases (contains t s.subscribed)) [
    | inl known ↦ rw known (left-Tracks t s.handle s.subscribed s.world v.rooms.sharded h)
    | inr unknown ↦ rw unknown h
  ]

  announce-IsTracked :
      (now : ℕ) (t : Topic) (blob : Bytes) (n : ℕ) (s : Session EndpointId F)
      → IsSession peer_of limits s
      → IsTracked s
      → IsTracked (handle_announce now t blob n s)
  unfolding handle_announce answer rate_limited take_publish
  announce-IsTracked now t blob n s v h = elim (Bool-cases (ltb max_announce_len (length blob))) [
    | inl large ↦ rw large h
    | inr small ↦ rw small (elim (Bool-cases (contains t s.subscribed)) [
      | inr unknown ↦ rw unknown h
      | inl known ↦ rw known (elim (Bool-cases ((try_take now n s.publish_rate).1)) [
        | inr denied ↦ rw denied h
        | inl granted ↦ rw granted (λ j member.
            h j (sym (announce-is_member t j s.handle blob s.world v.rooms.sharded) ∙ member))
      ])
    ])
  ]

  pub handle_frame-IsTracked :
      (now n : ℕ) (f : ClientFrame EndpointId) (s : Session EndpointId F)
      → IsSession peer_of limits s
      → IsTracked s
      → IsTracked (handle_frame limits now f n s)
  unfolding handle_frame answer
  handle_frame-IsTracked now n (ClientFrame.subscribe t) s v h = subscribe-IsTracked now t s v h
  handle_frame-IsTracked now n (ClientFrame.unsubscribe t) s v h = unsubscribe-IsTracked t s v h
  handle_frame-IsTracked now n (ClientFrame.announce t blob) s v h =
      announce-IsTracked now t blob n s v h
  handle_frame-IsTracked now n (ClientFrame.publish t payload) s v h = h
  handle_frame-IsTracked now n (ClientFrame.publish_to t to payload) s v h = h
