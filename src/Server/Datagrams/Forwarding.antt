-- ===== src/Server/Datagrams/Forwarding.antt =====
-- Whom one round of `datagram_loop` sends a datagram, and what it counts.
use keep_talking_sfu.Prelude.{
  ℕ, ◌≡◌, ◌∙◌, refl, sym, ap, Bool, Bool-cases, Option-cases, inl, inr, ◌&&◌, ◌==◌, none, some,
  List, [], ◌∷◌, ◌++◌, length, take, drop, ltb, leb, if◌then◌else◌, append-nil, append_assoc, arith,
}
use keep_talking_sfu.Prelude.Wire.{Bytes}
use keep_talking_sfu.Proto.Ids.{EndpointIds}
use keep_talking_sfu.Proto.Topic.{Topic}
use keep_talking_sfu.Proto.Decode.{take_topic, split_to}
use keep_talking_sfu.Proto.Datagram.{split_datagram}
use keep_talking_sfu.Server.Stats.{bump}
use keep_talking_sfu.Server.World.{Handle, Room}
use keep_talking_sfu.Server.Rooms.{Rooms, get_room, is_member, other_conns, datagram_targets}
use keep_talking_sfu.Server.Rooms.Fanout.{hears, hears-has_conn, AreDistinct}
use keep_talking_sfu.Server.Rooms.Members.{AreOwn-AreDistinct}
use keep_talking_sfu.Server.Rooms.Invariant.{Inv}
use keep_talking_sfu.Server.Rooms.Takeover.{room_at}
use keep_talking_sfu.Server.Bucket.{Doubles, try_take}
use keep_talking_sfu.Server.Datagrams.{
  Forwarder, send_all, targets_of, sent_or_dropped, forward_datagram,
}

-- The datagrams that one connection was sent.
abbrev pub sends_to : ℕ → List (ℕ × Bytes) → List Bytes
sends_to c [] = []
sends_to c ((conn, d) ∷ sends) = if conn == c then d ∷ sends_to c sends else sends_to c sends

sends_to-append :
    (c : ℕ) (xs ys : List (ℕ × Bytes)) → sends_to c (xs ++ ys) ≡ sends_to c xs ++ sends_to c ys
sends_to-append c [] ys = refl
sends_to-append c ((conn, d) ∷ xs) ys = ground (arith, sends_to-append c xs ys)

-- The datagram once for each time that the connection is in the list.
abbrev copies : ℕ → Bytes → List ℕ → List Bytes
copies c d [] = []
copies c d (conn ∷ conns) = if conn == c then d ∷ copies c d conns else copies c d conns

sends_to-one :
    (c conn : ℕ) (d : Bytes) (before : List (ℕ × Bytes)) (conns : List ℕ)
    → sends_to c (before ++ (conn, d) ∷ []) ++ copies c d conns
      ≡ sends_to c before ++ copies c d (conn ∷ conns)
sends_to-one c conn d before conns =
    ap (λ x. x ++ copies c d conns) (sends_to-append c before ((conn, d) ∷ []))
    ∙ append_assoc (sends_to c before) (sends_to c ((conn, d) ∷ [])) (copies c d conns)
    ∙ ap (λ x. sends_to c before ++ x)
        (elim (Bool-cases (conn == c)) [ inl same ↦ rw same refl | inr other ↦ rw other refl ])

module _ {F : Type 0} (is_ok : ℕ → Bytes → Bool) (d : Bytes) where
  sends_to-send_all :
      (c : ℕ) (conns : List ℕ) (f : Forwarder F)
      → sends_to c (send_all is_ok d conns f).sends ≡ sends_to c f.sends ++ copies c d conns
  unfolding send_all
  sends_to-send_all c [] f = sym (append-nil (sends_to c f.sends))
  sends_to-send_all c (conn ∷ conns) f =
      sends_to-send_all c conns _ ∙ sends_to-one c conn d f.sends conns

  -- Sending counts what was taken, and nothing else.
  send_all_counts :
      (conns : List ℕ) (f : Forwarder F)
      → ((send_all is_ok d conns f).rate ≡ f.rate)
        × ((send_all is_ok d conns f).stats.datagrams_in ≡ f.stats.datagrams_in)
        × ((send_all is_ok d conns f).stats.datagrams_dropped ≡ f.stats.datagrams_dropped)
  unfolding send_all
  send_all_counts [] f = (refl, refl, refl)
  send_all_counts (conn ∷ conns) f =
      let (rate, received, dropped) = send_all_counts conns _ in
      (rate, received ∙ ground arith, dropped ∙ ground arith)

split_datagram-take :
    (d : Bytes)
    → split_datagram d
      ≡ (if leb 32 (length d) then some (record { bytes = take 32 d }, drop 32 d) else none)
unfolding split_datagram take_topic split_to
split_datagram-take d = elim (Bool-cases (ltb (length d) 32)) [
  | inl short ↦ rw short (ground arith)
  | inr long ↦ rw long (ground arith)
]

module _ {EndpointId : Type 0} ⦃ids : EndpointIds EndpointId⦄ where
  -- Each connection of another member once, and no other.
  copies-other_conns :
      (c : ℕ) (d : Bytes) (peer : EndpointId) (room : Room EndpointId)
      → AreDistinct room
      → copies c d (other_conns peer room) ≡ (if hears c peer room then d ∷ [] else [])
  unfolding other_conns
  copies-other_conns c d peer [] h = refl
  copies-other_conns c d peer ((id, slot) ∷ room) h =
      ground (arith, copies-other_conns c d peer room h.1, hears-has_conn c peer room)

  targets-member :
      (t : Topic) (h : Handle EndpointId) (rooms : Rooms EndpointId)
      → datagram_targets t h rooms
        ≡ (if is_member t h rooms then some (other_conns h.peer (room_at rooms t)) else none)
  unfolding datagram_targets is_member
  targets-member t h rooms = elim (Option-cases (get_room rooms t)) [
    | inl absent ↦ rw (absent, datagram_targets, is_member) refl
    | inr (room, there) ↦ rw (there, datagram_targets, is_member, room_at) (ground arith)
  ]

  room_at-AreDistinct :
      (peer_of : ℕ → EndpointId) (t : Topic) (rooms : Rooms EndpointId)
      → Inv peer_of rooms
      → AreDistinct (room_at rooms t)
  room_at-AreDistinct peer_of t rooms v = elim (Option-cases (get_room rooms t)) [
    | inl absent ↦ rw (absent, room_at) tt
    | inr (room, there) ↦
        rw (there, room_at) (AreOwn-AreDistinct peer_of room (v.rooms t room there).own)
  ]

module _ {EndpointId F : Type 0} ⦃ids : EndpointIds EndpointId⦄ ⦃f64 : Doubles F⦄ (now : ℕ)
    (h : Handle EndpointId) (rooms : Rooms EndpointId) (d : Bytes) (f : Forwarder F) where
  -- The bucket allows it, its first 32 bytes are there, and name a room that the sender is in.
  abbrev pub is_forwarded : Bool
  is_forwarded =
      (try_take now (length d) f.rate).1
      && (leb 32 (length d) && is_member (record { bytes = take 32 d }) h rooms)

module _ {EndpointId : Type 0} ⦃ids : EndpointIds EndpointId⦄ (h : Handle EndpointId)
    (rooms : Rooms EndpointId) (d : Bytes) where
  targets_of-split_datagram : targets_of h rooms (split_datagram d) ≡ (
      if leb 32 (length d) && is_member (record { bytes = take 32 d }) h rooms
      then some (other_conns h.peer (room_at rooms (record { bytes = take 32 d })))
      else none)
  targets_of-split_datagram = rw (split_datagram-take d) (elim (Bool-cases (leb 32 (length d))) [
    | inl long ↦ rw long (targets-member (record { bytes = take 32 d }) h rooms)
    | inr short ↦ rw short refl
  ])

module _ {EndpointId F : Type 0} ⦃ids : EndpointIds EndpointId⦄ ⦃f64 : Doubles F⦄
    (is_ok : ℕ → Bytes → Bool) (now : ℕ) (h : Handle EndpointId) (rooms : Rooms EndpointId)
    (d : Bytes) (f : Forwarder F) where
  forward_datagram-sent_or_dropped :
      forward_datagram is_ok now h rooms d f
      ≡ sent_or_dropped is_ok d
          (if is_forwarded now h rooms d f
            then some (other_conns h.peer (room_at rooms (record { bytes = take 32 d })))
            else none)
          (record f {
            rate = (try_take now (length d) f.rate).0;
            stats = record f.stats { datagrams_in = bump f.stats.datagrams_in };
          })
  unfolding forward_datagram
  forward_datagram-sent_or_dropped = elim (Bool-cases ((try_take now (length d) f.rate).1)) [
    | inl allowed ↦ rw (allowed, targets_of-split_datagram h rooms d) refl
    | inr denied ↦ rw denied refl
  ]

  -- In well-formed rooms, whatever bytes a datagram has and whoever sent it: if the bucket allows it,
  -- it has 32 bytes at least, and they name a topic that the sender is a member of, then the
  -- connection of each other member is sent the datagram as it is, once, and no other connection is
  -- sent anything; in all other cases none is, and it counts as dropped. It counts as received and
  -- against the bucket in every case.
  pub forward_datagram_reaches :
      (peer_of : ℕ → EndpointId) (c : ℕ)
      → Inv peer_of rooms
      → let room = room_at rooms (record { bytes = take 32 d }) in
        let r = forward_datagram is_ok now h rooms d f in
        (sends_to c r.sends
          ≡ sends_to c f.sends
            ++ (if is_forwarded now h rooms d f && hears c h.peer room then d ∷ [] else []))
        × (r.rate ≡ (try_take now (length d) f.rate).0)
        × (r.stats.datagrams_in ≡ bump f.stats.datagrams_in)
        × (r.stats.datagrams_dropped ≡ (
            if is_forwarded now h rooms d f
            then f.stats.datagrams_dropped
            else bump f.stats.datagrams_dropped))
  forward_datagram_reaches peer_of c v =
      let topic : Topic = record { bytes = take 32 d } in
      let received : Forwarder F = record f {
        rate = (try_take now (length d) f.rate).0;
        stats = record f.stats { datagrams_in = bump f.stats.datagrams_in };
      } in
      let conns = other_conns h.peer (room_at rooms topic) in
      let counts = send_all_counts is_ok d conns received in
      rw forward_datagram-sent_or_dropped (elim (Bool-cases (is_forwarded now h rooms d f)) [
        | inl goes ↦ rw goes (
          sends_to-send_all is_ok d c conns received
              ∙ ap (λ x. sends_to c f.sends ++ x)
                  (copies-other_conns c d h.peer (room_at rooms topic)
                    (room_at-AreDistinct peer_of topic rooms v)),
          counts.0,
          counts.1,
          counts.2,
        )
        | inr drops ↦ rw drops (sym (append-nil (sends_to c f.sends)), refl, refl, refl)
      ])
