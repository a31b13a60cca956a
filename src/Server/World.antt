-- ===== src/Server/World.antt =====
-- src/server.rs, `MemberHandle`, `Slot`, `Room`, and the state that handlers share. A handle points
-- to the queues of its connection, so that is the connection's number here, and the queues are
-- looked up by it.
use keep_talking_sfu.Prelude.{ℕ, ltb, List, ◌==◌, if◌then◌else◌}
use keep_talking_sfu.Prelude.Wire.{Bytes}
use keep_talking_sfu.Proto.Lane.{Lane}
use keep_talking_sfu.Server.Deliver.{Deliver}
use keep_talking_sfu.Server.Stats.{Stats, fetch_add}
use keep_talking_sfu.Server.Outbound.{Outbound, deliver}

pub record Handle (EndpointId : Type 0) : Type 0 where
  pub peer : EndpointId
  pub conn_id : ℕ

pub record Slot (EndpointId : Type 0) : Type 0 where
  pub handle : Handle EndpointId
  pub blob : Bytes

-- `HashMap<EndpointId, Slot>`; the order of the list is the order of iteration.
abbrev pub Room : Type 0 → Type 0
Room EndpointId = List (EndpointId × Slot EndpointId)

-- The queues of every connection, and the counters.
pub record Net (EndpointId : Type 0) : Type 0 where
  pub links : ℕ → Outbound EndpointId
  pub stats : Stats

module _ {EndpointId : Type 0} where
  -- An action on the queues of one connection.
  unfoldable pub on_link :
      ℕ → (Outbound EndpointId → Outbound EndpointId) → Net EndpointId → Net EndpointId
  on_link conn f net = record net {
    links = λ c. if conn == c then f (net.links c) else net.links c;
  }

  -- `slot.handle.deliver(lane, frame)`
  unfoldable pub deliver_to : ℕ → Lane → Deliver → Net EndpointId → Net EndpointId
  unfolding on_link
  deliver_to conn lane frame net =
      let (o, dropped) = deliver lane frame (net.links conn) in
      let stats : Stats =
        if ltb 0 dropped
        then record net.stats { bulk_dropped = fetch_add net.stats.bulk_dropped dropped }
        else net.stats in
      record { links = (on_link conn (λ _. o) net).links; stats = stats }
