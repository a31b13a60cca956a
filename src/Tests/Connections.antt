-- ===== src/Tests/Connections.antt =====
-- A run of the theorem on a connection from its stream to its teardown, over whole numbers.
use keep_talking_sfu.Prelude.{ℕ, ◌≡◌, refl, false, [], ◌∷◌, ◌++◌}
use keep_talking_sfu.Proto.Tag
use keep_talking_sfu.Proto.Topic.{Topic}
use keep_talking_sfu.Proto.Stream.{End, Stream}
use keep_talking_sfu.Server.Limits.{default_limits}
use keep_talking_sfu.Server.Rooms.{World, is_member, new}
use keep_talking_sfu.Server.Rooms.Invariant.{Inv, new-Inv, new-empty}
use keep_talking_sfu.Server.Connection.{opened, serve_connection}
use keep_talking_sfu.Server.Connection.Served.{serve_connection_leaves}
use keep_talking_sfu.Tests.Fixtures.{Peer, peers, peer_of, room_topic, alice_handle, empty_world}
use keep_talking_sfu.Tests.Sessions.{whole_numbers}

alice_absent : (t : Topic) → is_member t alice_handle (new 2 8) ≡ false
unfolding is_member
alice_absent t = rw (is_member, new-empty {EndpointId = Peer} 2 8 t) refl

-- A subscription, and then a length prefix that is out of range.
abbrev join_and_break : Stream
join_and_break = record {
  pieces =
      (0 ∷ 0 ∷ 0 ∷ 33 ∷ Tag.subscribe ∷ room_topic.bytes ++ (255 ∷ 255 ∷ []))
      ∷ (255 ∷ 255 ∷ [])
      ∷ [];
  ending = End.finished;
}

abbrev served : World Peer
served =
    serve_connection {F = ℕ} default_limits (λ tag e. []) (λ n. n) (opened join_and_break)
      alice_handle empty_world

serve_connection_leaves_example :
    Inv peer_of served.rooms × (is_member room_topic alice_handle served.rooms ≡ false)
serve_connection_leaves_example =
    serve_connection_leaves {F = ℕ} default_limits (λ tag e. []) peer_of alice_handle (λ n. n)
      (opened join_and_break) empty_world room_topic refl (new-Inv peer_of 2 8, alice_absent)
