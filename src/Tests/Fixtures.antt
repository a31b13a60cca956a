-- ===== src/Tests/Fixtures.antt =====
-- Three endpoint ids, and worlds with them.
use keep_talking_sfu.Prelude.{
  ℕ, zero, suc, ◌≡◌, refl, Option, none, some, List, [], ◌∷◌, length, replicate, ite, ℕ_discrete,
  arith,
}
use keep_talking_sfu.Prelude.Wire.{Bytes}
use keep_talking_sfu.Proto.Ids.{EndpointIds}
use keep_talking_sfu.Proto.Topic.{Topic}
use keep_talking_sfu.Proto.ServerFrame.{Member}
use keep_talking_sfu.Server.Deliver
use keep_talking_sfu.Server.Deliver.{Deliver}
use keep_talking_sfu.Server.Outbound
use keep_talking_sfu.Server.Outbound.{Outbound}
use keep_talking_sfu.Server.Stats
use keep_talking_sfu.Server.World.{Handle, Net}
use keep_talking_sfu.Server.Rooms
use keep_talking_sfu.Server.Rooms.{World, join}

pub data Peer : Type 0 where
  alice bob carol : Peer

abbrev pub key : Peer → Bytes
key alice = replicate 32 1
key bob = replicate 32 2
key carol = replicate 32 3

abbrev pub bytes_discrete : Discrete Bytes
bytes_discrete = hlevel ℕ_discrete

abbrev pub read_key : Bytes → Option Peer
read_key b = ite (bytes_discrete b (key alice)) (some alice) (
    ite (bytes_discrete b (key bob)) (some bob)
      (ite (bytes_discrete b (key carol)) (some carol) none))

pub length-key : (p : Peer) → length (key p) ≡ 32
length-key alice = refl
length-key bob = refl
length-key carol = refl

pub read_key-key : (p : Peer) → read_key (key p) ≡ some p
unfolding ℕ_discrete
read_key-key alice = refl
read_key-key bob = refl
read_key-key carol = refl

pub key-read_key : (b : Bytes) (p : Peer) → read_key b ≡ some p → key p ≡ b
key-read_key b p h = ground arith

instance abbrev pub peers : EndpointIds Peer
peers = record {
  as_bytes = key;
  from_bytes = read_key;
  discrete = hlevel;
  refusal = λ b. b;
  length-as_bytes = length-key;
  from_bytes-as_bytes = read_key-key;
  as_bytes-from_bytes = key-read_key;
}

abbrev pub room_topic : Topic
room_topic = record { bytes = replicate 32 7 }

-- The peer of each connection.
abbrev pub peer_of : ℕ → Peer
peer_of zero = alice
peer_of (suc zero) = bob
peer_of (suc (suc zero)) = carol
peer_of _ = alice

abbrev pub alice_handle : Handle Peer
alice_handle = record { peer = alice; conn_id = 0 }

abbrev pub bob_handle : Handle Peer
bob_handle = record { peer = bob; conn_id = 1 }

-- A second connection of alice.
abbrev pub alice_again : Handle Peer
alice_again = record { peer = alice; conn_id = 3 }

abbrev pub idle : Outbound Peer
idle = Outbound.new 1000 1000

abbrev pub idle_net : Net Peer
idle_net = record { links = λ c. idle; stats = Stats.init }

abbrev pub empty_world : World Peer
empty_world = record { rooms = Rooms.new 2 8; net = idle_net }

abbrev pub world_with_alice : World Peer
world_with_alice = (join room_topic alice_handle empty_world).0

abbrev pub world_with_both : World Peer
world_with_both = (join room_topic bob_handle world_with_alice).0

abbrev pub two_members : List (Member Peer)
two_members = record { id = alice; blob = 9 ∷ [] } ∷ record { id = bob; blob = [] } ∷ []

abbrev pub greeting : Deliver
greeting = Deliver.new room_topic.bytes (104 ∷ 105 ∷ [])
