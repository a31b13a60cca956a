-- ===== src/Tests/Rooms.antt =====
-- Runs of the theorems on rooms, with alice and bob in a room that has space for two.
use keep_talking_sfu.Prelude.{
  ◌-◌, ◌≤◌, ◌<◌, ◌≡◌, ◌≢◌, refl, max, true, false, none, some, [], ◌∷◌, length, if◌then◌else◌, ◌==◌,
  ◌&&◌, ◌+◌, ite, lookup, insert, ℕ_discrete,
}
use keep_talking_sfu.Proto.Topic.{Topic}
use keep_talking_sfu.Proto.Topic
use keep_talking_sfu.Proto.Lane.{control, interactive, bulk}
use keep_talking_sfu.Proto.ServerFrame.{ServerFrame}
use keep_talking_sfu.Proto.Snapshot.{snapshot_wire_len}
use keep_talking_sfu.Server.Outbound.{Outbound, push_session, deliver}
use keep_talking_sfu.Server.Outbound
use keep_talking_sfu.Server.World.{Handle}
use keep_talking_sfu.Server.Rooms.{
  World, sent, refused, not_subscribed, new, get_room, put_room, or_default, join_room, shard,
  shard_index, with_shard, contains_key, owns_slot, enter, others, is_member, join, leave, announce,
  publish, publish_to, datagram_targets,
}
use keep_talking_sfu.Server.Rooms.Fanout.{AreDistinct, hears}
use keep_talking_sfu.Server.Rooms.Invariant.{Inv, new-Inv, join-Inv, join_refused}
use keep_talking_sfu.Server.Rooms.Takeover.{room_at, stranger_refused, join_takes_over}
use keep_talking_sfu.Server.Rooms.Views.{blob_of, listed, follow, told, leave-told, announce-told}
use keep_talking_sfu.Server.Rooms.Joins.{join-told}
use keep_talking_sfu.Server.Rooms.Publish.{is_same, answer_to, publish_reaches, publish_to_reaches}
use keep_talking_sfu.Server.Rooms.History.{here, then_, joins, rooms_bounded}
use keep_talking_sfu.Tests.Fixtures.{
  Peer, alice, bob, carol, peers, peer_of, room_topic, alice_handle, bob_handle, alice_again,
  idle_net, empty_world, world_with_alice, world_with_both, greeting,
}

alice_Inv : Inv peer_of world_with_alice.rooms
alice_Inv = join-Inv peer_of room_topic alice_handle empty_world refl (new-Inv peer_of 2 8)

pub both_Inv : Inv peer_of world_with_both.rooms
both_Inv = join-Inv peer_of room_topic bob_handle world_with_alice refl alice_Inv

alice_joins : (join room_topic alice_handle empty_world).1 ≡ some 1
unfolding join join_room or_default get_room shard shard_index put_room with_shard contains_key
    owns_slot is_member enter lookup insert Topic.discrete new ℕ_discrete
alice_joins = refl

bob_joins : (join room_topic bob_handle world_with_alice).1 ≡ some 2
unfolding join join_room or_default get_room shard shard_index put_room with_shard contains_key
    owns_slot is_member enter lookup insert Topic.discrete new ℕ_discrete
bob_joins = refl

pub bob_is_member : is_member room_topic bob_handle world_with_both.rooms ≡ true
unfolding join join_room or_default get_room shard shard_index put_room with_shard contains_key
    owns_slot is_member enter lookup insert Topic.discrete new ℕ_discrete
bob_is_member = refl

alice_there :
    get_room world_with_alice.rooms room_topic ≡ some (room_at world_with_alice.rooms room_topic)
unfolding join join_room or_default get_room shard shard_index put_room with_shard contains_key
    owns_slot is_member enter lookup insert Topic.discrete new ℕ_discrete
alice_there = refl

alice_again_joins : (join room_topic alice_again world_with_alice).1 ≡ some 1
unfolding join join_room or_default get_room shard shard_index put_room with_shard contains_key
    owns_slot is_member enter lookup insert Topic.discrete new ℕ_discrete
alice_again_joins = refl

stranger : is_member room_topic alice_again world_with_both.rooms ≡ false
unfolding join join_room or_default get_room shard shard_index put_room with_shard contains_key
    owns_slot is_member enter lookup insert Topic.discrete new ℕ_discrete
stranger = refl

alice-bob : alice ≢ bob
alice-bob e = cc

alice_found :
    lookup peers.discrete alice (room_at world_with_both.rooms room_topic)
    ≡ some (record { handle = alice_handle; blob = [] })
unfolding join join_room or_default get_room shard shard_index put_room with_shard contains_key
    owns_slot is_member enter lookup insert Topic.discrete new ℕ_discrete
alice_found = refl

carol_absent : lookup peers.discrete carol (room_at world_with_both.rooms room_topic) ≡ none
unfolding join join_room or_default get_room shard shard_index put_room with_shard contains_key
    owns_slot is_member enter lookup insert Topic.discrete new ℕ_discrete
carol_absent = refl

abbrev carol_handle : Handle Peer
carol_handle = record { peer = carol; conn_id = 2 }

carol_refused : (join room_topic carol_handle world_with_both).1 ≡ none
unfolding join join_room or_default get_room shard shard_index put_room with_shard contains_key
    owns_slot is_member enter lookup insert Topic.discrete new ℕ_discrete
carol_refused = refl

abbrev joined_world : World Peer
joined_world = (join room_topic bob_handle world_with_alice).0

rooms_bounded_example :
    (0 < length (room_at world_with_alice.rooms room_topic))
    × (length (room_at world_with_alice.rooms room_topic) ≤ max 2 1)
    × AreDistinct (room_at world_with_alice.rooms room_topic)
rooms_bounded_example =
    rooms_bounded peer_of 2 8 idle_net world_with_alice room_topic
      (room_at world_with_alice.rooms room_topic)
      (then_ here (joins room_topic alice_handle empty_world refl)) alice_there

-- What alice's connection is told when bob joins.
join-told_example :
    let joined : ServerFrame Peer = ServerFrame.joined room_topic bob in
    let ms = others bob (room_at joined_world.rooms room_topic) in
    (2 ≡ length (room_at joined_world.rooms room_topic))
    × (joined_world.net.links 0 ≡ (
        if 1 == 0
        then push_session
            (Outbound.snapshot room_topic ms)
            (snapshot_wire_len ms world_with_alice.rooms.chunk_entries)
            (world_with_alice.net.links 0)
        else told peer_of joined bob
            (room_at joined_world.rooms room_topic)
            0
            world_with_alice.net))
    × (listed ms bob
        ≡ ite
            (peers.discrete bob bob)
            none
            (blob_of (room_at world_with_alice.rooms room_topic) bob))
    × (2 ≡ length ms + 1)
    × (blob_of (room_at joined_world.rooms room_topic) bob
        ≡ follow joined (blob_of (room_at world_with_alice.rooms room_topic)) bob)
join-told_example =
    join-told peer_of room_topic bob_handle world_with_alice alice_Inv 0 bob 2 refl bob_joins

leave-told_example :
    let left : ServerFrame Peer = ServerFrame.left room_topic bob in
    let w' = (leave room_topic bob_handle world_with_both).0 in
    ((leave room_topic bob_handle world_with_both).1 ≡ some (length (room_at w'.rooms room_topic)))
    × (w'.net.links 0 ≡ told peer_of left bob (room_at w'.rooms room_topic) 0 world_with_both.net)
    × (blob_of (room_at w'.rooms room_topic) bob
        ≡ follow left (blob_of (room_at world_with_both.rooms room_topic)) bob)
leave-told_example =
    leave-told peer_of room_topic bob_handle world_with_both both_Inv 0 bob bob_is_member

announce-told_example :
    let presence : ServerFrame Peer = ServerFrame.presence room_topic bob (5 ∷ []) in
    let w' = (announce room_topic bob_handle (5 ∷ []) world_with_both).0 in
    ((announce room_topic bob_handle (5 ∷ []) world_with_both).1 ≡ true)
    × (w'.net.links 0
        ≡ told peer_of presence bob (room_at w'.rooms room_topic) 0 world_with_both.net)
    × (blob_of (room_at w'.rooms room_topic) bob
        ≡ follow presence (blob_of (room_at world_with_both.rooms room_topic)) bob)
announce-told_example =
    announce-told peer_of room_topic bob_handle world_with_both both_Inv 0 bob (5 ∷ [])
      bob_is_member

-- Alice's second connection takes her slot from the first.
join_takes_over_example :
    is_member room_topic alice_handle (join room_topic alice_again world_with_alice).0.rooms
    ≡ (3 == 0)
join_takes_over_example =
    join_takes_over room_topic alice_again alice_handle world_with_alice 1 alice_Inv.sharded
      alice_again_joins refl

-- Before it joins it can do nothing in the room.
stranger_refused_example :
    (leave room_topic alice_again world_with_both ≡ (world_with_both, none))
    × (announce room_topic alice_again (5 ∷ []) world_with_both ≡ (world_with_both, false))
    × (publish room_topic alice_again control greeting world_with_both
        ≡ (world_with_both, refused not_subscribed))
    × (publish_to room_topic alice_again bob control greeting world_with_both
        ≡ (world_with_both, refused not_subscribed))
    × (datagram_targets room_topic alice_again world_with_both.rooms ≡ none)
stranger_refused_example =
    stranger_refused room_topic alice_again world_with_both (5 ∷ []) bob control greeting stranger

publish_reaches_example :
    let room = room_at world_with_both.rooms room_topic in
    let w' = (publish room_topic bob_handle interactive greeting world_with_both).0 in
    ((publish room_topic bob_handle interactive greeting world_with_both).1
      ≡ sent (length room - 1))
    × (w'.rooms ≡ world_with_both.rooms)
    × (w'.net.links 0 ≡ (
        if hears 0 bob room
        then (deliver interactive greeting (world_with_both.net.links 0)).0
        else world_with_both.net.links 0))
publish_reaches_example =
    publish_reaches peer_of room_topic bob_handle world_with_both both_Inv bob_is_member interactive
      greeting 0

publish_to_reaches_example :
    let room = room_at world_with_both.rooms room_topic in
    let r = publish_to room_topic bob_handle alice bulk greeting world_with_both in
    (r.1 ≡ (
      if is_member room_topic bob_handle world_with_both.rooms
      then answer_to alice bob room
      else refused not_subscribed))
    × (r.0.rooms ≡ world_with_both.rooms)
    × (r.0.net.links 0 ≡ (
        if is_member room_topic bob_handle world_with_both.rooms
          && (hears 0 bob room && is_same alice alice)
        then (deliver bulk greeting (world_with_both.net.links 0)).0
        else world_with_both.net.links 0))
publish_to_reaches_example =
    publish_to_reaches peer_of room_topic bob_handle world_with_both both_Inv alice bulk greeting 0

-- The room is full for carol.
join_refused_example : (join room_topic carol_handle world_with_both).0 ≡ world_with_both
join_refused_example =
    join_refused peer_of room_topic carol_handle world_with_both refl both_Inv carol_refused
