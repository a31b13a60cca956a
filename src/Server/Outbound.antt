-- ===== src/Server/Outbound.antt =====
-- src/server.rs, `Budget`, `Outbound` and the methods of `MemberHandle`: the queues towards one
-- client. Each method is one step, since its atomic operations are not interleaved here.
pub mod Budget
pub mod Queues
use keep_talking_sfu.Prelude.{
  ℕ, ◌+◌, ◌-◌, ◌%◌, ◌^◌, Bool, true, false, not, Option, List, [], ◌∷◌, ◌++◌, length, ltb, ◌&&◌,
  if◌then◌else◌,
}
use keep_talking_sfu.Prelude.Wire.{Bytes, ascii}
use keep_talking_sfu.Proto.Ids.{EndpointIds}
use keep_talking_sfu.Proto.Close
use keep_talking_sfu.Proto.Lane.{Lane, control, interactive, bulk}
use keep_talking_sfu.Proto.Topic.{Topic}
use keep_talking_sfu.Proto.ServerFrame.{Member, ServerFrame}
use keep_talking_sfu.Proto.ServerFrame
use keep_talking_sfu.Server.Deliver.{Deliver, len}
use keep_talking_sfu.Server.BulkQueue.{BulkQueue}
use keep_talking_sfu.Server.BulkQueue

pub data SessionItem (EndpointId : Type 0) : Type 0 where
  frame : Bytes → SessionItem EndpointId
  snapshot : Topic → List (Member EndpointId) → SessionItem EndpointId

pub record Queued (A : Type 0) : Type 0 where
  pub item : A
  pub size : ℕ

-- What the handles of one connection share. A channel is the list of what it holds, oldest first,
-- and whether its writer still receives; `closes` lists the calls of `Connection::close`.
pub record Outbound (EndpointId : Type 0) : Type 0 where
  pub queued : ℕ
  pub limit : ℕ
  pub overflowed : Bool
  pub session : List (Queued (SessionItem EndpointId))
  pub session_open : Bool
  pub control_lane : List (Queued Deliver)
  pub control_open : Bool
  pub interactive_lane : List (Queued Deliver)
  pub interactive_open : Bool
  pub bulk_queue : BulkQueue
  pub closes : List (ℕ × Bytes)

-- `AtomicUsize::fetch_add` and `fetch_sub`, on 64 bits.
abbrev pub fetch_add : ℕ → ℕ → ℕ
fetch_add a b = (a + b) % 2 ^ 64

abbrev pub fetch_sub : ℕ → ℕ → ℕ
fetch_sub a b = (a + 2 ^ 64 - b % 2 ^ 64) % 2 ^ 64

module _ {EndpointId : Type 0} where
  -- `Connection::close`
  unfoldable pub close_conn : ℕ → Bytes → Outbound EndpointId → Outbound EndpointId
  close_conn code text o = record o { closes = o.closes ++ (code, text) ∷ [] }

  -- `Drop for Outbound`, at its last handle.
  unfoldable pub drop_queues : Outbound EndpointId → Outbound EndpointId
  drop_queues o = record o { bulk_queue = BulkQueue.close o.bulk_queue }

  -- `Budget::release`
  unfoldable pub release : ℕ → Outbound EndpointId → Outbound EndpointId
  release size o = record o { queued = fetch_sub o.queued size }

  unfoldable pub overflow : Outbound EndpointId → Outbound EndpointId
  unfolding close_conn
  overflow o =
      if not o.overflowed
      then close_conn Close.slow_consumer (ascii "slow consumer") (record o { overflowed = true })
      else o

  unfoldable pub reserve : ℕ → Outbound EndpointId → Outbound EndpointId × Bool
  unfolding release overflow
  reserve size o =
      let before = o.queued in
      let added = record o { queued = fetch_add before size } in
      if o.overflowed
      then (o, false)
      else if ltb 0 before && ltb o.limit (fetch_add before size)
      then (overflow (release size added), false)
      else (added, true)

  unfoldable pub push_session :
      SessionItem EndpointId → ℕ → Outbound EndpointId → Outbound EndpointId
  unfolding reserve
  push_session item size o =
      let (o', reserved) = reserve size o in
      if reserved
      then if o'.session_open
        then record o' { session = o'.session ++ record { item = item; size = size } ∷ [] }
        else release size o'
      else o'

  unfoldable pub push_frame : Bytes → Outbound EndpointId → Outbound EndpointId
  unfolding push_session
  push_frame bytes o = push_session (frame bytes) (length bytes) o

  -- `self.out.lanes[lane.index()].send(item)`, and the release if that fails.
  unfoldable pub send_control : Queued Deliver → Outbound EndpointId → Outbound EndpointId
  unfolding release
  send_control item o =
      if o.control_open
      then record o { control_lane = o.control_lane ++ item ∷ [] }
      else release item.size o

  unfoldable pub send_interactive : Queued Deliver → Outbound EndpointId → Outbound EndpointId
  unfolding release
  send_interactive item o =
      if o.interactive_open
      then record o { interactive_lane = o.interactive_lane ++ item ∷ [] }
      else release item.size o

  -- The result comes with the number of bulk deliveries dropped.
  unfoldable pub deliver : Lane → Deliver → Outbound EndpointId → Outbound EndpointId × ℕ
  unfolding reserve send_control send_interactive
  deliver bulk d o =
      let (q, dropped) = BulkQueue.push o.bulk_queue d in (record o { bulk_queue = q }, dropped)
  deliver control d o =
      let (o', reserved) = reserve (len d) o in
      ((if reserved then send_control (record { item = d; size = len d }) o' else o'), 0)
  deliver interactive d o =
      let (o', reserved) = reserve (len d) o in
      ((if reserved then send_interactive (record { item = d; size = len d }) o' else o'), 0)

  -- A connection's queues when it has opened its session stream.
  unfoldable pub new : ℕ → ℕ → Outbound EndpointId
  new outbox_bytes bulk_outbox_bytes = record {
    queued = 0;
    limit = outbox_bytes;
    overflowed = false;
    session = [];
    session_open = true;
    control_lane = [];
    control_open = true;
    interactive_lane = [];
    interactive_open = true;
    bulk_queue = BulkQueue.new bulk_outbox_bytes;
    closes = [];
  }

module _ {EndpointId : Type 0} ⦃ids : EndpointIds EndpointId⦄ where
  -- `MemberHandle::error`
  unfoldable pub error : Option Topic → Bytes → Outbound EndpointId → Outbound EndpointId
  unfolding push_frame
  error topic reason o =
      let f : ServerFrame EndpointId = ServerFrame.error topic reason in
      push_frame (ServerFrame.encode f) o
