-- ===== src/Server/BulkQueue.antt =====
-- src/server.rs, `BulkQueue`: bulk deliveries that wait for a stream, and the accounting of those
-- on a stream. The mutex makes each method one step.
pub mod Push
pub mod Bounds
use keep_talking_sfu.Prelude.{
  ℕ, zero, suc, ◌+◌, ◌-◌, Bool, true, false, Option, none, some, List, [], ◌∷◌, ◌++◌, ltb, ◌&&◌,
  if◌then◌else◌,
}
use keep_talking_sfu.Server.Deliver.{Deliver, len}

pub record BulkState : Type 0 where
  pub waiting : List Deliver
  pub waiting_bytes : ℕ
  pub bytes : ℕ
  pub closed : Bool

pub record BulkQueue : Type 0 where
  pub state : BulkState
  pub budget : ℕ

unfoldable pub new : ℕ → BulkQueue
new budget = record {
  state = record { waiting = []; waiting_bytes = 0; bytes = 0; closed = false };
  budget = budget;
}

-- The loop that drops the oldest waiting deliveries; the state comes with how many it dropped.
-- Where it would pop from an empty queue it breaks.
unfoldable pub make_room : ℕ → ℕ → List Deliver → ℕ → ℕ → ℕ → List Deliver × ℕ × ℕ × ℕ
make_room budget size [] waiting_bytes bytes dropped = ([], waiting_bytes, bytes, dropped)
make_room budget size (oldest ∷ waiting) waiting_bytes bytes dropped =
    let less =
      make_room budget size waiting (waiting_bytes - len oldest) (bytes - len oldest)
        (dropped + 1) in
    if ltb 0 bytes && ltb budget (bytes + size)
    then less
    else (oldest ∷ waiting, waiting_bytes, bytes, dropped)

-- The new delivery behind what `make_room` left.
abbrev pub append : BulkQueue → Deliver → List Deliver × ℕ × ℕ × ℕ → BulkQueue × ℕ
append q frame (waiting, waiting_bytes, bytes, dropped) = (
  record q {
    state = record q.state {
      waiting = waiting ++ frame ∷ [];
      waiting_bytes = waiting_bytes + len frame;
      bytes = bytes + len frame;
    };
  },
  dropped,
)

abbrev pub on_streams : BulkQueue → ℕ
on_streams q = q.state.bytes - q.state.waiting_bytes

-- The queue with how many deliveries were dropped.
unfoldable pub push : BulkQueue → Deliver → BulkQueue × ℕ
push q frame =
    let s = q.state in
    let size = len frame in
    if s.closed
    then (q, 0)
    else if ltb 0 (on_streams q) && ltb q.budget (on_streams q + size)
    then (q, 1)
    else append q frame (make_room q.budget size s.waiting s.waiting_bytes s.bytes 0)

-- One turn of the loop in `next`: a delivery, the end, or a wait for `ready`.
pub data Next : Type 0 where
  delivery : Deliver → Next
  ends : Next
  waits : Next

abbrev pub next_of : BulkQueue → List Deliver → BulkQueue × Next
next_of q [] = (q, (if q.state.closed then ends else waits))
next_of q (frame ∷ waiting) = (
  record q {
    state = record q.state { waiting = waiting; waiting_bytes = q.state.waiting_bytes - len frame };
  },
  delivery frame,
)

unfoldable pub next : BulkQueue → BulkQueue × Next
next q = next_of q q.state.waiting

unfoldable pub done : BulkQueue → ℕ → BulkQueue
done q size = record q { state = record q.state { bytes = q.state.bytes - size } }

unfoldable pub close : BulkQueue → BulkQueue
close q = record q { state = record q.state { closed = true } }
