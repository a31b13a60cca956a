-- ===== src/Server/Rooms.antt =====
-- src/server.rs, `Rooms`: rooms keyed by topic, members keyed by endpoint id, sharded by topic.
-- Each method holds its shard's lock throughout, so it is one step on the shared state.
pub mod Shards
pub mod Members
pub mod Fanout
pub mod Invariant
pub mod Takeover
pub mod Views
pub mod Joins
pub mod Publish
pub mod History
use keep_talking_sfu.Prelude.{
  ℕ, ◌+◌, ◌*◌, ◌%◌, max, Bool, true, false, not, Option, none, some, List, [], ◌∷◌, length, map,
  get_or, set, replicate, leb, ◌==◌, ◌&&◌, ite, if◌then◌else◌, lookup, insert, remove,
}
use keep_talking_sfu.Prelude.Wire.{Bytes}
use keep_talking_sfu.Proto.Ids.{EndpointIds}
use keep_talking_sfu.Proto.Lane.{Lane}
use keep_talking_sfu.Proto.Topic.{Topic}
use keep_talking_sfu.Proto.Topic
use keep_talking_sfu.Proto.ServerFrame.{Member, ServerFrame}
use keep_talking_sfu.Proto.ServerFrame
use keep_talking_sfu.Proto.Snapshot.{snapshot_wire_len}
use keep_talking_sfu.Server.Deliver.{Deliver}
use keep_talking_sfu.Server.Outbound.{push_session, push_frame}
use keep_talking_sfu.Server.Outbound
use keep_talking_sfu.Server.World.{Handle, Slot, Room, Net, on_link, deliver_to}

abbrev pub shard_count : ℕ
shard_count = 64

pub record Rooms (EndpointId : Type 0) : Type 0 where
  pub shards : List (List (Topic × Room EndpointId))
  pub max_members : ℕ
  pub chunk_entries : ℕ

pub record World (EndpointId : Type 0) : Type 0 where
  pub rooms : Rooms EndpointId
  pub net : Net EndpointId

pub data Refusal : Type 0 where
  not_subscribed no_such_recipient : Refusal

pub data Sent : Type 0 where
  sent : ℕ → Sent
  refused : Refusal → Sent

-- `u16::from_le_bytes([topic.0[0], topic.0[1]]) % SHARDS`
unfoldable pub shard_index : Topic → ℕ
shard_index t = (get_or t.bytes 0 0 + 256 * get_or t.bytes 1 0) % shard_count

module _ {EndpointId : Type 0} where
  -- `Rooms::new`
  unfoldable pub new : ℕ → ℕ → Rooms EndpointId
  new max_members_per_topic snapshot_chunk_entries = record {
    shards = replicate shard_count [];
    max_members = max max_members_per_topic 1;
    chunk_entries = max snapshot_chunk_entries 1;
  }

  -- The shard of a topic, and the same with another content.
  unfoldable pub shard : Rooms EndpointId → Topic → List (Topic × Room EndpointId)
  shard r t = get_or r.shards (shard_index t) []

  unfoldable pub with_shard :
      Rooms EndpointId → Topic → List (Topic × Room EndpointId) → Rooms EndpointId
  with_shard r t m = record r { shards = set r.shards (shard_index t) m }

  -- `shard.get(&topic)`
  unfoldable pub get_room : Rooms EndpointId → Topic → Option (Room EndpointId)
  unfolding shard
  get_room r t = lookup Topic.discrete t (shard r t)

  -- The room is written back; `shard.remove(&topic)`.
  unfoldable pub put_room : Rooms EndpointId → Topic → Room EndpointId → Rooms EndpointId
  unfolding shard with_shard
  put_room r t room = with_shard r t (insert Topic.discrete t room (shard r t))

  unfoldable pub drop_room : Rooms EndpointId → Topic → Rooms EndpointId
  unfolding shard with_shard
  drop_room r t = with_shard r t (remove Topic.discrete t (shard r t))

  -- `shard.entry(topic).or_default()`
  unfoldable pub or_default : Rooms EndpointId → Topic → Rooms EndpointId × Room EndpointId
  or_default r t = elim (get_room r t) [ some room ↦ (r, room) | none ↦ (put_room r t [], []) ]

module _ {EndpointId : Type 0} ⦃ids : EndpointIds EndpointId⦄ where
  unfoldable pub contains_key : EndpointId → Room EndpointId → Bool
  contains_key id room = elim (lookup ids.discrete id room) [ none ↦ false | some _ ↦ true ]

  unfoldable pub owns_slot : Room EndpointId → Handle EndpointId → Bool
  owns_slot room h = elim (lookup ids.discrete h.peer room) [
    | none ↦ false
    | some slot ↦ slot.handle.conn_id == h.conn_id
  ]

  -- `broadcast`: the frame goes on the session stream of everyone but `except`.
  unfoldable pub broadcast : Room EndpointId → EndpointId → Bytes → Net EndpointId → Net EndpointId
  broadcast [] except frame net = net
  broadcast ((id, slot) ∷ room) except frame net =
      broadcast room except frame
        (ite (ids.discrete id except) net (on_link slot.handle.conn_id (push_frame frame) net))

  -- `.iter().filter(|(id, _)| **id != peer).map(...)`: the members of a snapshot.
  unfoldable pub others : EndpointId → Room EndpointId → List (Member EndpointId)
  others peer [] = []
  others peer ((id, slot) ∷ room) =
      let rest = others peer room in
      ite (ids.discrete id peer) rest (record { id = id; blob = slot.blob } ∷ rest)

  -- The part of `join` that a room with space takes; the room comes back with the queues.
  unfoldable pub enter :
      Rooms EndpointId
      → Topic
      → Handle EndpointId
      → Room EndpointId
      → Net EndpointId
      → Room EndpointId × Net EndpointId
  enter r t h room net =
      let joined : ServerFrame EndpointId = ServerFrame.joined t h.peer in
      let room' = insert ids.discrete h.peer (record { handle = h; blob = [] }) room in
      let members = others h.peer room' in
      let size = snapshot_wire_len members r.chunk_entries in
      let net' = on_link h.conn_id (push_session (Outbound.snapshot t members) size) net in
      (room', broadcast room' h.peer (ServerFrame.encode joined) net')

  -- `join` in the room that it found or made.
  unfoldable pub join_room :
      Topic
      → Handle EndpointId
      → World EndpointId
      → Rooms EndpointId
      → Room EndpointId
      → World EndpointId × Option ℕ
  join_room t h w r room =
      let (room', net) = enter r t h room w.net in
      if not (contains_key h.peer room) && leb r.max_members (length room)
      then (record w { rooms = r }, none)
      else (record { rooms = put_room r t room'; net = net }, some (length room'))

  unfoldable pub join : Topic → Handle EndpointId → World EndpointId → World EndpointId × Option ℕ
  join t h w = let (r, room) = or_default w.rooms t in join_room t h w r room

  -- The part of `leave` for a handle that owns its slot.
  unfoldable pub vacate :
      Topic → Handle EndpointId → Room EndpointId → World EndpointId → World EndpointId × Option ℕ
  vacate t h room w =
      let left : ServerFrame EndpointId = ServerFrame.left t h.peer in
      let room' = remove ids.discrete h.peer room in
      let net = broadcast room' h.peer (ServerFrame.encode left) w.net in
      let size = length room' in
      (
        record {
          rooms = if size == 0 then drop_room w.rooms t else put_room w.rooms t room';
          net = net;
        },
        some size,
      )

  unfoldable pub leave : Topic → Handle EndpointId → World EndpointId → World EndpointId × Option ℕ
  leave t h w = elim (get_room w.rooms t) [
    | none ↦ (w, none)
    | some room ↦ if not (owns_slot room h) then (w, none) else vacate t h room w
  ]

  -- `slot.blob = blob`
  unfoldable pub set_blob : EndpointId → Bytes → Room EndpointId → Room EndpointId
  set_blob peer blob room = elim (lookup ids.discrete peer room) [
    | none ↦ room
    | some slot ↦ insert ids.discrete peer (record slot { blob = blob }) room
  ]

  unfoldable pub announce :
      Topic → Handle EndpointId → Bytes → World EndpointId → World EndpointId × Bool
  announce t h blob w =
      let presence : ServerFrame EndpointId = ServerFrame.presence t h.peer blob in
      elim (get_room w.rooms t) [
        | none ↦ (w, false)
        | some room ↦
            let room' = set_blob h.peer blob room in
            let net = broadcast room' h.peer (ServerFrame.encode presence) w.net in
            if owns_slot room h
            then (record { rooms = put_room w.rooms t room'; net = net }, true)
            else (w, false)
      ]

  unfoldable pub is_member : Topic → Handle EndpointId → Rooms EndpointId → Bool
  is_member t h r = elim (get_room r t) [ none ↦ false | some room ↦ owns_slot room h ]

  -- The loop of `publish`, with how many it reached.
  unfoldable pub fan_out :
      Room EndpointId → EndpointId → Lane → Deliver → Net EndpointId → ℕ → Net EndpointId × ℕ
  fan_out [] peer lane frame net count = (net, count)
  fan_out ((id, slot) ∷ room) peer lane frame net count =
      fan_out room peer lane frame
        (ite (ids.discrete id peer) net (deliver_to slot.handle.conn_id lane frame net))
        (ite (ids.discrete id peer) count (count + 1))

  -- `.get(&topic).filter(|room| owns_slot(room, handle))`
  unfoldable pub own_room : Topic → Handle EndpointId → Rooms EndpointId → Option (Room EndpointId)
  own_room t h r = elim (get_room r t) [
    | none ↦ none
    | some room ↦ if owns_slot room h then some room else none
  ]

  unfoldable pub publish :
      Topic → Handle EndpointId → Lane → Deliver → World EndpointId → World EndpointId × Sent
  publish t h lane frame w = elim (own_room t h w.rooms) [
    | none ↦ (w, refused not_subscribed)
    | some room ↦
        let (net, count) = fan_out room h.peer lane frame w.net 0 in
        (record w { net = net }, sent count)
  ]

  unfoldable pub publish_to :
      Topic
      → Handle EndpointId
      → EndpointId
      → Lane
      → Deliver
      → World EndpointId
      → World EndpointId × Sent
  publish_to t h recipient lane frame w = elim (own_room t h w.rooms) [
    | none ↦ (w, refused not_subscribed)
    | some room ↦
        ite (ids.discrete recipient h.peer) (w, refused no_such_recipient)
          (elim (lookup ids.discrete recipient room) [
            | none ↦ (w, refused no_such_recipient)
            | some slot ↦
                (record w { net = deliver_to slot.handle.conn_id lane frame w.net }, sent 1)
          ])
  ]

  -- The connections of the other members.
  unfoldable pub other_conns : EndpointId → Room EndpointId → List ℕ
  other_conns peer [] = []
  other_conns peer ((id, slot) ∷ room) =
      let rest = other_conns peer room in
      ite (ids.discrete id peer) rest (slot.handle.conn_id ∷ rest)

  unfoldable pub datagram_targets : Topic → Handle EndpointId → Rooms EndpointId → Option (List ℕ)
  datagram_targets t h r = elim (get_room r t) [
    | none ↦ none
    | some room ↦ if not (owns_slot room h) then none else some (other_conns h.peer room)
  ]

module _ {EndpointId : Type 0} where
  unfoldable pub members : Topic → Rooms EndpointId → List EndpointId
  members t r = elim (get_room r t) [ none ↦ [] | some room ↦ map (λ p. p.0) room ]

  -- `shard.values().map(HashMap::len).sum()`
  unfoldable pub subscriptions : List (Topic × Room EndpointId) → ℕ
  subscriptions [] = 0
  subscriptions ((t, room) ∷ m) = length room + subscriptions m

  -- The fold of `occupancy`: rooms and subscriptions.
  unfoldable pub occupancy_from : ℕ → ℕ → List (List (Topic × Room EndpointId)) → ℕ × ℕ
  unfolding subscriptions
  occupancy_from rooms count [] = (rooms, count)
  occupancy_from rooms count (m ∷ shards) =
      occupancy_from (rooms + length m) (count + subscriptions m) shards

  unfoldable pub occupancy : Rooms EndpointId → ℕ × ℕ
  unfolding occupancy_from
  occupancy r = occupancy_from 0 0 r.shards
