-- ===== src/Tests/Queues.antt =====
-- Runs of the theorems on the queues towards one client.
use keep_talking_sfu.Prelude.{◌+◌, ◌≤◌, ◌<◌, ◌≡◌, ◌⊎◌, refl, [], ◌∷◌, arith}
use keep_talking_sfu.Proto.Lane.{bulk}
use keep_talking_sfu.Server.Deliver.{Deliver, len, chunks, chunks-new}
use keep_talking_sfu.Server.Deliver
use keep_talking_sfu.Server.BulkQueue.{BulkQueue, push, on_streams}
use keep_talking_sfu.Server.BulkQueue
use keep_talking_sfu.Server.BulkQueue.Push.{Taken, push_cases}
use keep_talking_sfu.Server.BulkQueue.Bounds.{Bulk, Reach, begins, steps, pushes, Inv, Reach-Inv}
use keep_talking_sfu.Server.Outbound.{Outbound, SessionItem, Queued, push_session, deliver}
use keep_talking_sfu.Server.Outbound
use keep_talking_sfu.Server.Outbound.Budget.{IsCounted, deliver-IsCounted}
use keep_talking_sfu.Server.Outbound.Queues.{queue_session, push_session-queue_session}
use keep_talking_sfu.Tests.Fixtures.{Peer, peers, room_topic, idle, greeting}

abbrev small_queue : BulkQueue
small_queue = BulkQueue.new 50

push_cases_example :
    ((push small_queue greeting ≡ (small_queue, 1))
      × (0 < on_streams small_queue)
      × (small_queue.budget < on_streams small_queue + len greeting))
    ⊎ Taken small_queue greeting (push small_queue greeting)
unfolding BulkQueue.new
push_cases_example =
    push_cases small_queue greeting (record { waiting_counted = refl; part = omega arith }) refl

abbrev one_waiting : Bulk
one_waiting = record { queue = (push small_queue greeting).0; streams = [] }

one_waiting_reached : Reach 100 2 50 one_waiting
unfolding len Deliver.new
one_waiting_reached =
    steps begins
      (pushes greeting (omega (arith, Deliver.len-new room_topic.bytes (104 ∷ 105 ∷ []))) refl)

Reach-Inv_example : Inv 100 2 50 one_waiting
Reach-Inv_example = Reach-Inv one_waiting_reached

idle-IsCounted : IsCounted 100 0 idle
unfolding Outbound.new
idle-IsCounted = record {
  counted = refl;
  bounded = omega arith;
  small = (omega arith, omega arith);
}

abbrev note : SessionItem Peer
note = SessionItem.frame (1 ∷ 2 ∷ [])

push_session-queue_session_example : push_session note 2 idle ≡ queue_session note 2 idle
push_session-queue_session_example =
    push_session-queue_session 100 0 2 note idle (omega arith) idle-IsCounted

greeting_small : len greeting ≤ 100
greeting_small = omega (arith, Deliver.len-new room_topic.bytes (104 ∷ 105 ∷ []))

deliver-IsCounted_example : IsCounted 100 0 (deliver bulk greeting idle).0
deliver-IsCounted_example = deliver-IsCounted 100 0 idle bulk greeting greeting_small idle-IsCounted
