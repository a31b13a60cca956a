-- ===== src/Server/Writers.antt =====
-- src/server.rs, the writers of one connection: `session_writer`, `lane_writer`, `send_bulk` and the
-- `write_chunks` below them.
pub mod Chunks
pub mod Failures
pub mod Sessions
pub mod SessionBytes
pub mod Lanes
pub mod LaneBytes
pub mod Bulks
use keep_talking_sfu.Prelude.{
  ℕ, zero, suc, Bool, true, false, Option, none, some, List, [], ◌∷◌, length, flatten,
  if◌then◌else◌,
}
use keep_talking_sfu.Prelude.Wire.{Bytes, ascii}
use keep_talking_sfu.Proto.Ids.{EndpointIds}
use keep_talking_sfu.Proto.Close
use keep_talking_sfu.Proto.StreamError
use keep_talking_sfu.Proto.Lane.{Lane, control, interactive, bulk, prefix, priority}
use keep_talking_sfu.Proto.Snapshot.{encode_snapshot}
use keep_talking_sfu.Transport.{
  Transport, Write, took, refused, late, Opening, opened, denied, no_credit,
}
use keep_talking_sfu.Server.Limits.{Limits}
use keep_talking_sfu.Server.Stats.{Stats, bump}
use keep_talking_sfu.Server.Deliver.{Deliver, chunks}
use keep_talking_sfu.Server.Outbound.{
  SessionItem, frame, snapshot, Queued, Outbound, release, close_conn,
}

pub data WriteFailure : Type 0 where
  closed stalled : WriteFailure

-- The last one is the model's own.
pub data Written : Type 0 where
  written : Written
  failed : WriteFailure → Written
  out_of_fuel : Written

-- `while rest.first().is_some_and(Bytes::is_empty)`
unfoldable pub skip_empty : List Bytes → List Bytes
skip_empty [] = []
skip_empty ([] ∷ rest) = skip_empty rest
skip_empty ((b ∷ bs) ∷ rest) = (b ∷ bs) ∷ rest

module _ {C : Type 0} ⦃net : Transport C⦄ where
  abbrev pub after_write : (List Bytes → C → C × Written) → C × Write → C × Written
  after_write go_on (c, took rest) = go_on rest c
  after_write go_on (c, refused) = (c, failed closed)
  after_write go_on (c, late) = (c, failed stalled)

  -- What is left once the empty chunks in front are skipped.
  abbrev pub after_skip : (List Bytes → C → C × Written) → ℕ → C → List Bytes → C × Written
  after_skip go_on i c [] = (c, written)
  after_skip go_on i c (chunk ∷ rest) = after_write go_on (net.write_many_chunks i (chunk ∷ rest) c)

  -- The loop on fuel.
  unfoldable pub write_on : ℕ → ℕ → List Bytes → C → C × Written
  write_on zero i rest c = (c, out_of_fuel)
  write_on (suc fuel) i rest c = after_skip (λ r d. write_on fuel i r d) i c (skip_empty rest)

  -- Each write takes a byte at least, so a turn per byte and the last test are enough.
  unfoldable pub write_chunks : ℕ → List Bytes → C → C × Written
  write_chunks i parts c = write_on (suc (length (flatten parts))) i parts c

  -- `set_priority` on a stream that was opened.
  abbrev pub with_priority : Lane → C × Opening → C × Opening
  with_priority lane (c, opened i) = (net.set_priority i (priority lane) c, opened i)
  with_priority lane (c, denied) = (c, denied)
  with_priority lane (c, no_credit) = (c, no_credit)

  -- `denied` stands for `Err(Closed)`, `no_credit` for `Err(Stalled)`.
  unfoldable pub open_lane : Lane → C → C × Opening
  open_lane lane c = with_priority lane (net.open_uni c)

-- What a writer sees: the connection, the queues it reads from, and the counters.
pub record Writer (EndpointId C : Type 0) : Type 0 where
  pub conn : C
  pub out : Outbound EndpointId
  pub stats : Stats

-- `stalled`, called before its writer returns.
unfoldable pub stalled_writer : {EndpointId C : Type 0} → Writer EndpointId C → Writer EndpointId C
stalled_writer w = record w {
  out = close_conn Close.stalled (ascii "stalled") w.out;
  stats = record w.stats { stalled = bump w.stats.stalled };
}

-- How a turn of a writer ends: it goes on, it waits for its queue, or the writer returns.
pub data Turn : Type 0 where
  goes_on idle returned : Turn
  stuck : Turn
