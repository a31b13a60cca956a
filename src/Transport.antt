-- ===== src/Transport.antt =====
-- What src/server.rs and src/client.rs call of the QUIC library: streams of a connection, by number.
-- The operations are parameters, and `IsTransport` is what their documentation promises.
use keep_talking_sfu.Prelude.{
  ℕ, ◌<◌, ◌≡◌, Bool, true, false, Option, none, some, List, [], ◌++◌, length, flatten,
}
use keep_talking_sfu.Prelude.Wire.{Bytes}

-- `write_many_chunks` within a time: it took bytes off the front and leaves these chunks, or the
-- stream is gone, or the time ran out.
pub data Write : Type 0 where
  took : List Bytes → Write
  refused late : Write

-- `open_uni` within a time.
pub data Opening : Type 0 where
  opened : ℕ → Opening
  denied no_credit : Opening

pub record Transport (C : Type 0) : Type 0 where
  pub write_many_chunks : ℕ → List Bytes → C → C × Write
  -- `write_all`, `write_chunk` and `write_all_chunks`: whether all was written.
  pub write_all_chunks : ℕ → List Bytes → C → C × Bool
  pub open_uni : C → C × Opening
  -- `open_uni` without a time, which waits for credit.
  pub wait_uni : C → C × Option ℕ
  pub set_priority : ℕ → ℕ → C → C
  -- Whether the stream was open.
  pub finish : ℕ → C → C × Bool
  pub reset : ℕ → ℕ → C → C
  -- Whether the peer has every byte, or stopped the stream, within the time.
  pub stopped : ℕ → C → C × Bool
  -- Whether the datagram was taken.
  pub send_datagram : Bytes → C → C × Bool
  pub close : ℕ → Bytes → C → C
  -- `close_reason().is_some()`
  pub is_closed : C → Bool
  -- The bytes that a stream took so far; no operation of the code reads them.
  pub sent : ℕ → C → Bytes

module _ {C : Type 0} ⦃net : Transport C⦄ where
  -- Some bytes of the chunks went to the stream, and the rest is left.
  abbrev pub Took : ℕ → List Bytes → C → C × Write → Type 0
  Took i chunks c (c', took rest) =
      (k : Bytes) × (flatten chunks ≡ k ++ flatten rest)
      × (net.sent i c' ≡ net.sent i c ++ k)
      × (length (flatten rest) < length (flatten chunks))
  Took i chunks c (c', refused) = net.sent i c' ≡ net.sent i c
  Took i chunks c (c', late) = net.sent i c' ≡ net.sent i c

  abbrev pub Opens : C × Opening → Type 0
  Opens (c, opened i) = net.sent i c ≡ []
  Opens (c, denied) = Unit {0}
  Opens (c, no_credit) = Unit {0}

  abbrev pub OpensSome : C × Option ℕ → Type 0
  OpensSome (c, some i) = net.sent i c ≡ []
  OpensSome (c, none) = Unit {0}

  -- All of the chunks, or some front of them.
  abbrev pub TookAll : ℕ → List Bytes → C → C × Bool → Type 0
  TookAll i chunks c (c', true) = net.sent i c' ≡ net.sent i c ++ flatten chunks
  TookAll i chunks c (c', false) =
      (k rest : Bytes) × (flatten chunks ≡ k ++ rest) × (net.sent i c' ≡ net.sent i c ++ k)

-- A write of chunks that are not all empty takes bytes in order, and one that fails or times out
-- takes none; a new stream is empty; the other operations send nothing.
pub record IsTransport (C : Type 0) ⦃net : Transport C⦄ : Type 0 where
  pub write_many :
      (i : ℕ) (chunks : List Bytes) (c : C)
      → 0 < length (flatten chunks)
      → Took i chunks c (net.write_many_chunks i chunks c)
  pub write_all :
      (i : ℕ) (chunks : List Bytes) (c : C) → TookAll i chunks c (net.write_all_chunks i chunks c)
  pub opens : (c : C) → Opens (net.open_uni c)
  pub opens_some : (c : C) → OpensSome (net.wait_uni c)
  pub same_priority : (i j n : ℕ) (c : C) → net.sent i (net.set_priority j n c) ≡ net.sent i c
  pub same_finish : (i j : ℕ) (c : C) → net.sent i (net.finish j c).0 ≡ net.sent i c
