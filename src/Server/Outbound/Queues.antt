-- ===== src/Server/Outbound/Queues.antt =====
-- What a push does, without the atomic operations: a connection takes the item, or it is cut off.
use keep_talking_sfu.Prelude.{
  ℕ, ◌+◌, ◌≤◌, ◌≡◌, Bool, true, [], ◌∷◌, ◌++◌, leb, ◌==◌, ◌||◌, if◌then◌else◌, arith,
}
use keep_talking_sfu.Prelude.Wire.{ascii}
use keep_talking_sfu.Proto.Close
use keep_talking_sfu.Proto.Lane.{control}
use keep_talking_sfu.Server.Deliver.{Deliver, len}
use keep_talking_sfu.Server.Outbound.{SessionItem, Outbound, push_session, deliver}
use keep_talking_sfu.Server.Outbound.Budget.{IsCounted}

module _ {EndpointId : Type 0} where
  -- An empty budget takes any item, another one what fits.
  abbrev pub has_room : ℕ → Outbound EndpointId → Bool
  has_room size o = o.queued == 0 || leb (o.queued + size) o.limit

  abbrev pub cut_off : Outbound EndpointId → Outbound EndpointId
  cut_off o = record o {
    overflowed = true;
    closes = o.closes ++ (Close.slow_consumer, ascii "slow consumer") ∷ [];
  }

  -- The specification of `push_session`.
  abbrev pub queue_session : SessionItem EndpointId → ℕ → Outbound EndpointId → Outbound EndpointId
  queue_session item size o =
      if o.overflowed
      then o
      else if has_room size o
      then if o.session_open
        then record o {
          queued = o.queued + size;
          session = o.session ++ record { item = item; size = size } ∷ [];
        }
        else o
      else cut_off o

  -- The specification of a DELIVER on the control lane.
  abbrev pub queue_control : Deliver → Outbound EndpointId → Outbound EndpointId
  queue_control d o =
      if o.overflowed
      then o
      else if has_room (len d) o
      then if o.control_open
        then record o {
          queued = o.queued + len d;
          control_lane = o.control_lane ++ record { item = d; size = len d } ∷ [];
        }
        else o
      else cut_off o

  -- On a connection whose budget is counted, with an item of at most `m` bytes, the reserve, the
  -- send and the releases come to this: a connection that is cut off stays as it is; an item that
  -- fits is queued if the writer still receives; one that does not fit cuts the connection off,
  -- with one close as a slow consumer, and is not queued.
  pub push_session-queue_session :
      (m held size : ℕ) (item : SessionItem EndpointId) (o : Outbound EndpointId)
      → size ≤ m
      → IsCounted m held o
      → push_session item size o ≡ queue_session item size o
  unfolding push_session
  push_session-queue_session m held size item o h v = ground arith

  -- Likewise for a DELIVER of at most `m` bytes on the control lane, where no bulk delivery is
  -- dropped.
  pub deliver-queue_control :
      (m held : ℕ) (d : Deliver) (o : Outbound EndpointId)
      → len d ≤ m
      → IsCounted m held o
      → deliver control d o ≡ (queue_control d o, 0)
  unfolding deliver
  deliver-queue_control m held d o h v = ground arith
