-- ===== src/Server/Rooms/Shards.antt =====
-- The shards behave as one map from topics to rooms.
use keep_talking_sfu.Prelude.{
  ◌<◌, ◌≡◌, ◌≢◌, ◌∙◌, sym, ap, none, some, List, [], length, get_or, ite, if_pos, if_neg, lookup,
  insert, remove, lookup-insert_self, lookup-insert_ne, lookup-remove_self, lookup-remove_ne,
  length-set, get_or-set_self, get_or-set_ne, arith, ℕ_discrete,
}
use keep_talking_sfu.Proto.Topic.{Topic}
use keep_talking_sfu.Proto.Topic
use keep_talking_sfu.Server.World.{Room}
use keep_talking_sfu.Server.Rooms.{
  Rooms, shard_count, shard_index, shard, with_shard, get_room, put_room, drop_room,
}

shard_index-lt : (t : Topic) → shard_index t < shard_count
unfolding shard_index
shard_index-lt t = omega arith

module _ {EndpointId : Type 0} where
  abbrev pub IsSharded : Rooms EndpointId → Type 0
  IsSharded r = length r.shards ≡ shard_count

  shard-with_shard_self :
      (r : Rooms EndpointId) (t : Topic) (m : List (Topic × Room EndpointId))
      → IsSharded r
      → shard (with_shard r t m) t ≡ m
  unfolding shard with_shard
  shard-with_shard_self r t m h =
      get_or-set_self r.shards (shard_index t) m [] (omega (arith, shard_index-lt t))

  shard-with_shard_ne :
      (r : Rooms EndpointId) (t j : Topic) (m : List (Topic × Room EndpointId))
      → shard_index t ≢ shard_index j
      → shard (with_shard r t m) j ≡ shard r j
  unfolding shard with_shard
  shard-with_shard_ne r t j m apart =
      get_or-set_ne r.shards (shard_index t) (shard_index j) m [] apart

  shard_cong :
      (r : Rooms EndpointId) (t j : Topic) → shard_index t ≡ shard_index j → shard r t ≡ shard r j
  unfolding shard
  shard_cong r t j e = ap (λ i. get_or r.shards i []) e

  -- A shard that differs at the topic `t` alone leaves the rooms of the other topics.
  get_room-with_shard :
      (r : Rooms EndpointId) (t j : Topic) (m : List (Topic × Room EndpointId))
      → IsSharded r
      → (j ≢ t → lookup Topic.discrete j m ≡ lookup Topic.discrete j (shard r t))
      → get_room (with_shard r t m) j
        ≡ ite (Topic.discrete t j) (lookup Topic.discrete t m) (get_room r j)
  unfolding get_room
  get_room-with_shard r t j m h same = elim (Topic.discrete t j) [
    | yes e ↦ rw (if_pos _ e, ← e, shard-with_shard_self r t m h)
    | no ne ↦ rw (if_neg _ ne) (elim (ℕ_discrete (shard_index t) (shard_index j)) [
      | yes e ↦
          ap (lookup Topic.discrete j)
            (sym (shard_cong (with_shard r t m) t j e) ∙ shard-with_shard_self r t m h)
          ∙ same (λ p. ne (sym p))
          ∙ ap (lookup Topic.discrete j) (shard_cong r t j e)
      | no apart ↦ ap (lookup Topic.discrete j) (shard-with_shard_ne r t j m apart)
    ])
  ]

  -- In rooms with all their shards, writing a room back changes the room of its topic, and of no
  -- other.
  pub get_room-put_room :
      (r : Rooms EndpointId) (t j : Topic) (room : Room EndpointId)
      → IsSharded r
      → get_room (put_room r t room) j ≡ ite (Topic.discrete t j) (some room) (get_room r j)
  unfolding put_room
  get_room-put_room r t j room h =
      let old : List (Topic × Room EndpointId) = shard r t in
      get_room-with_shard r t j (insert Topic.discrete t room old) h
        (λ ne. lookup-insert_ne Topic.discrete t j room old (λ p. ne (sym p)))
      ∙ ap (λ o. ite (Topic.discrete t j) o (get_room r j))
          (lookup-insert_self Topic.discrete t room old)

  pub get_room-drop_room :
      (r : Rooms EndpointId) (t j : Topic)
      → IsSharded r
      → get_room (drop_room r t) j ≡ ite (Topic.discrete t j) none (get_room r j)
  unfolding drop_room
  get_room-drop_room r t j h =
      let old : List (Topic × Room EndpointId) = shard r t in
      get_room-with_shard r t j (remove Topic.discrete t old) h
        (λ ne. lookup-remove_ne Topic.discrete t j old (λ p. ne (sym p)))
      ∙ ap (λ o. ite (Topic.discrete t j) o (get_room r j))
          (lookup-remove_self Topic.discrete t old)

  pub put_room-IsSharded :
      (r : Rooms EndpointId) (t : Topic) (room : Room EndpointId)
      → IsSharded r
      → IsSharded (put_room r t room)
  unfolding put_room
  put_room-IsSharded r t room h = length-set r.shards (shard_index t) _ ∙ h

  pub drop_room-IsSharded :
      (r : Rooms EndpointId) (t : Topic) → IsSharded r → IsSharded (drop_room r t)
  unfolding drop_room
  drop_room-IsSharded r t h = length-set r.shards (shard_index t) _ ∙ h
