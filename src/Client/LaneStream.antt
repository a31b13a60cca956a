-- ===== src/Client/LaneStream.antt =====
-- src/client.rs, `pump_lane`: the deliveries of one lane stream of the SFU.
pub mod Reading
pub mod Delivered
use keep_talking_sfu.Prelude.{
  ℕ, zero, suc, Bool, true, false, Option, none, some, List, [], ◌∷◌, ◌++◌, length, if◌then◌else◌,
}
use keep_talking_sfu.Prelude.Outcome.{ok, err, panic}
use keep_talking_sfu.Prelude.Wire.{Bytes}
use keep_talking_sfu.Proto.Ids.{EndpointIds}
use keep_talking_sfu.Proto.Lane.{Lane, control, interactive, bulk, from_byte}
use keep_talking_sfu.Proto.Topic.{Topic}
use keep_talking_sfu.Proto.Decode.{Decoded}
use keep_talking_sfu.Proto.ServerFrame.{
  ServerFrame, deliver, snapshot, joined, left, presence, error, decode,
}
use keep_talking_sfu.Proto.Stream.{
  Stream, Read, got, ended, broken, bad_length, truncated, stuck, read_frame, read_lane_byte,
}
use keep_talking_sfu.Server.Stats.{fetch_add}

pub record Delivery : Type 0 where
  pub lane : Lane
  pub topic : Topic
  pub payload : Bytes

-- What was sent to the receiver of deliveries, and what was skipped.
pub record LanePump : Type 0 where
  pub deliveries : List Delivery
  pub skipped : ℕ

-- How the reader of a stream ends: without a lane byte, at an unknown lane, at the end of the stream,
-- at an error of `read_frame`, since the receiver went away, or behind the frame of a bulk stream.
-- The last two are a panic and the model's own.
pub data LaneEnd : Type 0 where
  no_lane unknown_lane stream_ended stream_failed receiver_gone bulk_read : LaneEnd
  panicked out_of_fuel : LaneEnd

unfoldable pub skip : LanePump → LanePump
skip p = record p { skipped = fetch_add p.skipped 1 }

-- The match on a decoded frame: a delivery to send, a frame that is skipped, or a panic.
pub data LaneTurn : Type 0 where
  sends : Delivery → LaneTurn
  skips panics : LaneTurn

unfoldable pub on_frame : {EndpointId : Type 0} → Lane → Decoded (ServerFrame EndpointId) → LaneTurn
on_frame lane (ok (deliver t payload)) =
    sends (record { lane = lane; topic = t; payload = payload })
on_frame lane (ok (snapshot t more ms)) = skips
on_frame lane (ok (joined t id)) = skips
on_frame lane (ok (left t id)) = skips
on_frame lane (ok (presence t id blob)) = skips
on_frame lane (ok (error t reason)) = skips
on_frame lane (err e) = skips
on_frame lane panic = panics

-- `if lane == Lane::Bulk { break; }`
abbrev pub unless_bulk : (LanePump → LanePump × LaneEnd) → Lane → LanePump → LanePump × LaneEnd
unless_bulk go_on control p = go_on p
unless_bulk go_on interactive p = go_on p
unless_bulk go_on bulk p = (p, bulk_read)

module _ (accepts : ℕ → Bool) where
  -- `tx.send(delivery)`; `accepts n` says whether the receiver is there for the delivery after `n`.
  abbrev pub after_turn :
      (LanePump → LanePump × LaneEnd) → Lane → LanePump → LaneTurn → LanePump × LaneEnd
  after_turn go_on lane p (sends d) =
      if accepts (length p.deliveries)
      then unless_bulk go_on lane (record p { deliveries = p.deliveries ++ d ∷ [] })
      else (p, receiver_gone)
  after_turn go_on lane p skips = unless_bulk go_on lane (skip p)
  after_turn go_on lane p panics = (p, panicked)

abbrev pub named : (Lane → LanePump × LaneEnd) → LanePump → Option Lane → LanePump × LaneEnd
named go_on p none = (skip p, unknown_lane)
named go_on p (some lane) = go_on lane

-- The match on the lane byte.
abbrev pub after_byte :
    (Lane → Stream → LanePump × LaneEnd) → Read ℕ → LanePump → LanePump × LaneEnd
after_byte go_on (got byte rest) p = named (λ lane. go_on lane rest) p (from_byte byte)
after_byte go_on ended p = (p, no_lane)
after_byte go_on broken p = (p, no_lane)
after_byte go_on (bad_length n) p = (p, no_lane)
after_byte go_on truncated p = (p, no_lane)
after_byte go_on stuck p = (p, out_of_fuel)

module _ (EndpointId : Type 0) ⦃ids : EndpointIds EndpointId⦄ (accepts : ℕ → Bool) where
  abbrev pub after_read :
      (Stream → LanePump → LanePump × LaneEnd)
      → Lane
      → Read (ℕ × Bytes)
      → LanePump
      → LanePump × LaneEnd
  after_read go_on lane (got (tag, body) rest) p =
      after_turn accepts (go_on rest) lane p
        (on_frame lane (decode {EndpointId = EndpointId} tag body))
  after_read go_on lane ended p = (p, stream_ended)
  after_read go_on lane broken p = (p, stream_failed)
  after_read go_on lane (bad_length n) p = (p, stream_failed)
  after_read go_on lane truncated p = (p, stream_failed)
  after_read go_on lane stuck p = (p, out_of_fuel)

  -- The loop on fuel.
  unfoldable pub pump_deliveries : ℕ → Lane → Stream → LanePump → LanePump × LaneEnd
  pump_deliveries zero lane stream p = (p, out_of_fuel)
  pump_deliveries (suc fuel) lane stream p =
      after_read (λ rest q. pump_deliveries fuel lane rest q) lane (read_frame stream) p

  unfoldable pub pump_lane : ℕ → Stream → LanePump → LanePump × LaneEnd
  pump_lane fuel stream p =
      after_byte (λ lane rest. pump_deliveries fuel lane rest p) (read_lane_byte stream) p
