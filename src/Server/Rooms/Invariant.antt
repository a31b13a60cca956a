-- ===== src/Server/Rooms/Invariant.antt =====
-- The rooms stay well formed: bounded, never empty, and each slot its member's.
use keep_talking_sfu.Prelude.{
  ℕ, suc, ◌≤◌, ◌<◌, ◌≡◌, ◌≢◌, refl, sym, ◌∙◌, true, false, not, Bool-cases, none, some, List, [],
  ◌∷◌, length, get_or, replicate, zero, leb, ◌==◌, ◌&&◌, lookup, remove, arith, Option-cases, inl,
  inr,
}
use keep_talking_sfu.Prelude.Wire.{Bytes}
use keep_talking_sfu.Proto.Ids.{EndpointIds}
use keep_talking_sfu.Proto.Topic.{Topic}
use keep_talking_sfu.Server.World.{Handle, Slot, Room, Net}
use keep_talking_sfu.Server.Rooms.{
  Rooms, World, shard_count, shard_index, shard, new, get_room, put_room, drop_room, or_default,
  contains_key, owns_slot, enter, join_room, join, vacate, leave, set_blob, announce,
}
use keep_talking_sfu.Server.Rooms.Shards.{
  IsSharded, get_room-put_room, get_room-drop_room, put_room-IsSharded, drop_room-IsSharded,
}
use keep_talking_sfu.Server.Rooms.Members.{
  AreOwn, insert-AreOwn, remove-AreOwn, set_blob-AreOwn, length-insert, length-set_blob,
  length-remove-le,
}

none-some {ℓ} : {A : Type ℓ} (a : A) → none ≢ some a
none-some a e = cc

replicate-nil {ℓ} : {A : Type ℓ} (n i : ℕ) → get_or {A = List A} (replicate n []) i [] ≡ []
replicate-nil zero i = refl
replicate-nil (suc n) zero = refl
replicate-nil (suc n) (suc i) = replicate-nil n i

pub new-empty :
    {EndpointId : Type 0} (members entries : ℕ) (t : Topic)
    → get_room {EndpointId = EndpointId} (new members entries) t ≡ none
unfolding get_room shard new lookup
new-empty members entries t = rw (replicate-nil shard_count (shard_index t)) refl

module _ {EndpointId : Type 0} ⦃ids : EndpointIds EndpointId⦄ (peer_of : ℕ → EndpointId) where
  pub record IsRoom (max_members : ℕ) (room : Room EndpointId) : Type 0 where
    pub own : AreOwn peer_of room
    pub occupied : 0 < length room
    pub in_bound : length room ≤ max_members

  pub record Inv (r : Rooms EndpointId) : Type 0 where
    pub sharded : IsSharded r
    pub max_pos : 0 < r.max_members
    pub rooms :
        (t : Topic) (room : Room EndpointId) → get_room r t ≡ some room → IsRoom r.max_members room

  -- The same with nothing said of the room of the topic `t`.
  record InvBut (t : Topic) (r : Rooms EndpointId) : Type 0 where
    sharded : IsSharded r
    max_pos : 0 < r.max_members
    rooms :
        (j : Topic) (room : Room EndpointId)
        → j ≢ t
        → get_room r j ≡ some room
        → IsRoom r.max_members room

  Inv-InvBut : (t : Topic) (r : Rooms EndpointId) → Inv r → InvBut t r
  Inv-InvBut t r v = record {
    sharded = v.sharded;
    max_pos = v.max_pos;
    rooms = λ j room ne e. v.rooms j room e;
  }

  put_room-InvBut :
      (r : Rooms EndpointId) (t : Topic) (room : Room EndpointId)
      → InvBut t r
      → InvBut t (put_room r t room)
  put_room-InvBut r t room v = record {
    sharded = put_room-IsSharded r t room v.sharded;
    max_pos = unfold put_room in v.max_pos;
    rooms = λ j other ne e.
        unfold put_room in ground (arith, get_room-put_room r t j room v.sharded, v.rooms j other);
  }

  put_room-Inv :
      (r : Rooms EndpointId) (t : Topic) (room : Room EndpointId)
      → InvBut t r
      → IsRoom r.max_members room
      → Inv (put_room r t room)
  put_room-Inv r t room v ok = record {
    sharded = put_room-IsSharded r t room v.sharded;
    max_pos = unfold put_room in v.max_pos;
    rooms = λ j other e.
        unfold put_room in ground (arith, get_room-put_room r t j room v.sharded, v.rooms j other);
  }

  drop_room-Inv : (r : Rooms EndpointId) (t : Topic) → Inv r → Inv (drop_room r t)
  drop_room-Inv r t v = record {
    sharded = drop_room-IsSharded r t v.sharded;
    max_pos = unfold drop_room in v.max_pos;
    rooms = λ j other e.
        unfold drop_room in ground (arith, get_room-drop_room r t j v.sharded, v.rooms j other);
  }

  contains_key-pos :
      (id : EndpointId) (room : Room EndpointId) → contains_key id room ≡ true → 0 < length room
  unfolding contains_key lookup
  contains_key-pos id [] e = cc
  contains_key-pos id (p ∷ room) e = omega arith

  -- The room that a handle enters is a room, if there was space or the member had a slot.
  entered-IsRoom :
      (n : ℕ) (t : Topic) (h : Handle EndpointId) (r : Rooms EndpointId) (room : Room EndpointId)
      (net : Net EndpointId)
      → peer_of h.conn_id ≡ h.peer
      → AreOwn peer_of room
      → length room ≤ n
      → (not (contains_key h.peer room) && leb n (length room)) ≡ false
      → IsRoom n (enter r t h room net).0
  unfolding enter
  entered-IsRoom n t h r room net auth own few space =
      let slot : Slot EndpointId = record { handle = h; blob = [] } in
      record {
        own = insert-AreOwn peer_of h.peer slot room (refl, auth) own;
        occupied = ground (arith, length-insert h.peer slot room, contains_key-pos h.peer room);
        in_bound = ground (arith, length-insert h.peer slot room);
      }

  module _ (t : Topic) (h : Handle EndpointId) (w : World EndpointId)
      (auth : peer_of h.conn_id ≡ h.peer) (v : Inv w.rooms) where
    join_room-Inv :
        (r : Rooms EndpointId) (room : Room EndpointId)
        → InvBut t r
        → AreOwn peer_of room
        → length room ≤ r.max_members
        → ((not (contains_key h.peer room) && leb r.max_members (length room)) ≡ true → Inv r)
        → Inv (join_room t h w r room).0.rooms
    unfolding join_room
    join_room-Inv r room but own few refuse =
        elim (Bool-cases (not (contains_key h.peer room) && leb r.max_members (length room))) [
          | inl full ↦ rw full (refuse full)
          | inr space ↦ rw space (
              put_room-Inv r t (enter r t h room w.net).0 but
                (entered-IsRoom r.max_members t h r room w.net auth own few space))
        ]

    vacate-Inv :
        (room : Room EndpointId) → IsRoom w.rooms.max_members room → Inv (vacate t h room w).0.rooms
    unfolding vacate
    vacate-Inv room ok = elim (Bool-cases (length (remove ids.discrete h.peer room) == 0)) [
      | inl empty ↦ rw empty (drop_room-Inv w.rooms t v)
      | inr some_left ↦ rw some_left (
          put_room-Inv w.rooms t (remove ids.discrete h.peer room) (Inv-InvBut t w.rooms v)
            (record {
              own = remove-AreOwn peer_of h.peer room ok.own;
              occupied = ground arith;
              in_bound = omega (arith, length-remove-le h.peer room, ok.in_bound);
            }))
    ]

    -- In well-formed rooms, a join that is refused as full changes nothing, not even by making an
    -- empty room.
    pub join_refused : (join t h w).1 ≡ none → (join t h w).0 ≡ w
    unfolding join or_default join_room
    join_refused = elim (Option-cases (get_room w.rooms t)) [
      | inl absent ↦ rw (absent, or_default) (λ e. unfold put_room in ground (arith, v.max_pos))
      | inr (room, there) ↦ rw (there, or_default) (λ e. ground arith)
    ]

    -- A join keeps the rooms well formed.
    pub join-Inv : Inv (join t h w).0.rooms
    unfolding join or_default
    join-Inv = elim (Option-cases (get_room w.rooms t)) [
      | inl absent ↦
          rw (absent, or_default)
            (join_room-Inv (put_room w.rooms t []) []
              (put_room-InvBut w.rooms t [] (Inv-InvBut t w.rooms v)) tt (omega arith)
              (λ full. unfold put_room in ground (arith, v.max_pos)))
      | inr (room, there) ↦
          let ok = v.rooms t room there in
          rw (there, or_default)
            (join_room-Inv w.rooms room (Inv-InvBut t w.rooms v) ok.own ok.in_bound (λ full. v))
    ]

    -- So does a leave, of an owner or of anyone else; the last to leave takes the room away.
    pub leave-Inv : Inv (leave t h w).0.rooms
    unfolding leave
    leave-Inv = elim (Option-cases (get_room w.rooms t)) [
      | inl absent ↦ rw (absent, leave) v
      | inr (room, there) ↦
          rw (there, leave)
            (elim (Bool-cases (owns_slot room h)) [
              | inl owner ↦ rw owner (vacate-Inv room (v.rooms t room there))
              | inr stranger ↦ rw stranger v
            ])
    ]

    -- So does an announce.
    pub announce-Inv : (blob : Bytes) → Inv (announce t h blob w).0.rooms
    unfolding announce
    announce-Inv blob = elim (Option-cases (get_room w.rooms t)) [
      | inl absent ↦ rw (absent, announce) v
      | inr (room, there) ↦
          let ok = v.rooms t room there in
          rw (there, announce)
            (elim (Bool-cases (owns_slot room h)) [
              | inl owner ↦ rw owner (
                  put_room-Inv w.rooms t (set_blob h.peer blob room) (Inv-InvBut t w.rooms v)
                    (record {
                      own = set_blob-AreOwn peer_of h.peer blob room ok.own;
                      occupied = omega (arith, length-set_blob h.peer blob room, ok.occupied);
                      in_bound = omega (arith, length-set_blob h.peer blob room, ok.in_bound);
                    }))
              | inr stranger ↦ rw stranger v
            ])
    ]

  -- New rooms are well formed.
  pub new-Inv : (members entries : ℕ) → Inv (new members entries)
  new-Inv members entries = record {
    sharded = unfold new in refl;
    max_pos = unfold new in omega arith;
    rooms = λ t room e. absurd (none-some room (sym (new-empty members entries t) ∙ e));
  }
