-- ===== src/Client/Frames.antt =====
-- src/client.rs, `pump_frames`: the frames of the session stream, with snapshot chunks merged.
pub mod Merge
pub mod Reading
use keep_talking_sfu.Prelude.{
  ℕ, zero, suc, ◌+◌, ◌*◌, Bool, true, false, Option, none, some, List, [], ◌∷◌, ◌++◌, length, ltb,
  if◌then◌else◌, lookup, insert, remove,
}
use keep_talking_sfu.Prelude.Outcome.{ok, err, panic}
use keep_talking_sfu.Proto.Ids.{EndpointIds}
use keep_talking_sfu.Proto.Limits.{max_members_per_topic}
use keep_talking_sfu.Proto.Topic.{Topic}
use keep_talking_sfu.Proto.Topic
use keep_talking_sfu.Proto.Decode.{Decoded}
use keep_talking_sfu.Proto.ServerFrame.{
  Member, ServerFrame, snapshot, joined, left, presence, deliver, error, decode,
}
use keep_talking_sfu.Proto.Stream.{
  Stream, Read, got, ended, broken, bad_length, truncated, stuck, read_frame,
}
use keep_talking_sfu.Server.Stats.{fetch_add}

-- The chunks that wait for their last one, what was sent to the receiver, and what was skipped.
pub record Pump (EndpointId : Type 0) : Type 0 where
  pub partial : List (Topic × List (Member EndpointId))
  pub sent : List (ServerFrame EndpointId)
  pub skipped : ℕ

-- How the loop ends: at the end of the stream, at an error of `read_frame`, or since the receiver
-- went away. The last two are a panic and the model's own.
pub data PumpEnd : Type 0 where
  stream_ended stream_failed receiver_gone panicked out_of_fuel : PumpEnd

-- One turn: `continue`, or a frame to send.
pub data Turn (EndpointId : Type 0) : Type 0 where
  goes_on : Pump EndpointId → Turn EndpointId
  emits : ServerFrame EndpointId → Pump EndpointId → Turn EndpointId
  panics : Turn EndpointId

abbrev pub or_empty : {A : Type 0} → Option (List A) → List A
or_empty none = []
or_empty (some xs) = xs

module _ {EndpointId : Type 0} where
  unfoldable pub skip : Pump EndpointId → Pump EndpointId
  skip p = record p { skipped = fetch_add p.skipped 1 }

  -- The arm of a SNAPSHOT chunk.
  unfoldable pub merge : Topic → Bool → List (Member EndpointId) → Pump EndpointId → Turn EndpointId
  unfolding skip
  merge t more members p =
      let pending = or_empty (lookup Topic.discrete t p.partial) ++ members in
      let partial = insert Topic.discrete t pending p.partial in
      let without = remove Topic.discrete t partial in
      if ltb (2 * max_members_per_topic) (length pending)
      then goes_on (skip (record p { partial = without }))
      else if more
      then goes_on (record p { partial = partial })
      else emits (snapshot t false (or_empty (lookup Topic.discrete t partial)))
          (record p { partial = without })

  -- The arms on a decoded frame.
  unfoldable pub on_frame : Decoded (ServerFrame EndpointId) → Pump EndpointId → Turn EndpointId
  unfolding merge skip
  on_frame (ok (snapshot t more members)) p = merge t more members p
  on_frame (ok (deliver t payload)) p = goes_on (skip p)
  on_frame (ok (joined t id)) p = emits (joined t id) p
  on_frame (ok (left t id)) p = emits (left t id) p
  on_frame (ok (presence t id blob)) p = emits (presence t id blob) p
  on_frame (ok (error t reason)) p = emits (error t reason) p
  on_frame (err e) p = goes_on (skip p)
  on_frame panic p = panics

module _ {EndpointId : Type 0} ⦃ids : EndpointIds EndpointId⦄ (accepts : ℕ → Bool) where
  -- `tx.send(frame)`; `accepts n` says whether the receiver is there for the frame after `n`.
  abbrev pub after_turn :
      (Pump EndpointId → Pump EndpointId × PumpEnd)
      → Pump EndpointId
      → Turn EndpointId
      → Pump EndpointId × PumpEnd
  after_turn go_on before (goes_on p) = go_on p
  after_turn go_on before (emits frame p) =
      if accepts (length p.sent)
      then go_on (record p { sent = p.sent ++ frame ∷ [] })
      else (p, receiver_gone)
  after_turn go_on before panics = (before, panicked)

  abbrev pub after_read :
      (Stream → Pump EndpointId → Pump EndpointId × PumpEnd)
      → Read (ℕ × List ℕ)
      → Pump EndpointId
      → Pump EndpointId × PumpEnd
  after_read go_on (got (tag, body) rest) p =
      after_turn (go_on rest) p (on_frame (decode tag body) p)
  after_read go_on ended p = (p, stream_ended)
  after_read go_on broken p = (p, stream_failed)
  after_read go_on (bad_length n) p = (p, stream_failed)
  after_read go_on truncated p = (p, stream_failed)
  after_read go_on stuck p = (p, out_of_fuel)

  -- The loop on fuel.
  unfoldable pub pump_frames : ℕ → Stream → Pump EndpointId → Pump EndpointId × PumpEnd
  pump_frames zero stream p = (p, out_of_fuel)
  pump_frames (suc fuel) stream p =
      after_read (λ rest q. pump_frames fuel rest q) (read_frame stream) p
