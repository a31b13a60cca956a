-- ===== src/Tests/Wire.antt =====
-- Runs of the wire protocol's theorems.
use keep_talking_sfu.Prelude.{ℕ, inl, ◌≡◌, refl, false, [], ◌∷◌, ◌++◌, All, replicate, arith}
use keep_talking_sfu.Prelude.Outcome.{ok, panic}
use keep_talking_sfu.Prelude.Wire.{Bytes, put_u32, put_u16}
use keep_talking_sfu.Prelude.Utf8.{utf8_text, utf8_char, from_utf8_lossy, from_utf8_lossy-IsString}
use keep_talking_sfu.Proto.Topic.Hex.{hex, read_pairs, from_hex, from_hex-hex}
use keep_talking_sfu.Proto.Tag
use keep_talking_sfu.Proto.ClientFrame.{ClientFrame}
use keep_talking_sfu.Proto.ClientFrame
use keep_talking_sfu.Proto.ServerFrame.{Member, ServerFrame}
use keep_talking_sfu.Proto.ServerFrame
use keep_talking_sfu.Proto.Decode
use keep_talking_sfu.Proto.Decode.{Decoded}
use keep_talking_sfu.Proto.Stream.{End, Stream, content, got, read_frame}
use keep_talking_sfu.Proto.Stream.Reassembly.{whole, seen, frame_of, read_frame-frame_of}
use keep_talking_sfu.Proto.Stream.RoundTrip.{client_frame-read_frame, server_frame-read_frame}
use keep_talking_sfu.Proto.Snapshot.{clamp_entries, snapshot_parts, encode_parts, encode_snapshot}
use keep_talking_sfu.Proto.Snapshot.Chunks.{union, MoreToLast, Within, encode_snapshot-parts}
use keep_talking_sfu.Proto.ClientFrame.Canonical
use keep_talking_sfu.Tests.Fixtures.{Peer, peers, room_topic, two_members}

abbrev hello : ClientFrame Peer
hello = ClientFrame.publish room_topic (104 ∷ 105 ∷ [])

abbrev hello_pieces : Stream
hello_pieces = record {
  pieces = ClientFrame.encode hello ∷ (1 ∷ 2 ∷ []) ∷ [];
  ending = End.finished;
}

client_frame-read_frame_example :
    (p : ℕ × Bytes) × (seen (read_frame hello_pieces) ≡ got p (whole (1 ∷ 2 ∷ []) End.finished))
    × (ClientFrame.decode p.0 p.1 ≡ ok hello)
unfolding ClientFrame.encode ClientFrame.topic Decode.encode put_u32
client_frame-read_frame_example =
    client_frame-read_frame hello (1 ∷ 2 ∷ []) hello_pieces refl (omega arith) refl

abbrev welcome : ServerFrame Peer
welcome = ServerFrame.snapshot room_topic false two_members

abbrev welcome_pieces : Stream
welcome_pieces = record { pieces = ServerFrame.encode welcome ∷ []; ending = End.failed }

server_frame-read_frame_example :
    (p : ℕ × Bytes) × (seen (read_frame welcome_pieces) ≡ got p (whole [] End.failed))
    × (ServerFrame.decode p.0 p.1 ≡ ok welcome)
unfolding ServerFrame.encode ServerFrame.encode_snapshot_chunk Decode.encode put_u32 put_u16
    ServerFrame.put_members ServerFrame.entries_len ServerFrame.snapshot_entry_len
server_frame-read_frame_example =
    server_frame-read_frame welcome [] welcome_pieces
      (refl, omega arith, (omega arith, (omega arith, tt))) (omega arith) refl

abbrev torn : Stream
torn = record { pieces = (0 ∷ 0 ∷ []) ∷ (0 ∷ 3 ∷ 33 ∷ []) ∷ []; ending = End.finished }

read_frame-frame_of_example : seen (read_frame torn) ≡ frame_of (content torn) End.finished
read_frame-frame_of_example = read_frame-frame_of torn

encode_snapshot-parts_example :
    (encode_snapshot room_topic two_members 1 65536
      ≡ encode_parts room_topic (snapshot_parts 3 (clamp_entries 1) 65536 two_members))
    × (union (snapshot_parts 3 (clamp_entries 1) 65536 two_members) ≡ two_members)
    × MoreToLast (snapshot_parts 3 (clamp_entries 1) 65536 two_members)
    × All (Within (clamp_entries 1) 65536) (snapshot_parts 3 (clamp_entries 1) 65536 two_members)
encode_snapshot-parts_example = encode_snapshot-parts room_topic two_members 1 65536

decode-ok_example :
    ClientFrame.RoundTrip.IsFrame hello
    × (ClientFrame.RoundTrip.tag_of hello ≡ Tag.publish)
    × (ClientFrame.RoundTrip.body_of hello ≡ room_topic.bytes ++ (104 ∷ 105 ∷ []))
decode-ok_example =
    ClientFrame.Canonical.decode-ok Tag.publish (room_topic.bytes ++ (104 ∷ 105 ∷ [])) hello
      (ClientFrame.RoundTrip.decode-body_of hello (unfold ClientFrame.topic in refl))

-- A reason with a character of three bytes.
from_utf8_lossy-IsString_example :
    from_utf8_lossy (0xE2 ∷ 0x82 ∷ 0xAC ∷ 33 ∷ []) ≡ 0xE2 ∷ 0x82 ∷ 0xAC ∷ 33 ∷ []
from_utf8_lossy-IsString_example = from_utf8_lossy-IsString (0xE2 ∷ 0x82 ∷ 0xAC ∷ 33 ∷ []) (
  0x20AC ∷ 33 ∷ [],
  (inl (omega arith), (inl (omega arith), tt)),
  unfold utf8_text utf8_char in refl,
)

from_hex-hex_example : from_hex (hex room_topic.bytes) ≡ ok room_topic
from_hex-hex_example = from_hex-hex room_topic refl (omega arith)

-- A text of 64 bytes whose first pair is a plus sign and a digit is read as well.
from_hex_plus : from_hex (43 ∷ 55 ∷ hex (replicate 31 7)) ≡ ok room_topic
unfolding from_hex read_pairs hex
from_hex_plus = refl

-- A character of two bytes behind an odd offset stops the reader with a panic.
from_hex_panics : from_hex (55 ∷ 0xC3 ∷ 0xA9 ∷ 55 ∷ hex (replicate 30 7)) ≡ panic
unfolding from_hex read_pairs hex
from_hex_panics = refl
