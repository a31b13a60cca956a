-- ===== src/Server/BulkQueue/Bounds.antt =====
-- The bulk queue with the dispatcher's streams: what is counted, and how much it can be.
use keep_talking_sfu.Prelude.{
  ℕ, zero, suc, ◌+◌, ◌≤◌, ◌<◌, ◌≡◌, inl, inr, refl, ap, ◌∙◌, max, Bool-cases, Option, none, some,
  List, [], ◌∷◌, ◌++◌, length, length-append, arith,
}
use keep_talking_sfu.Server.Deliver.{Deliver, len}
use keep_talking_sfu.Server.BulkQueue.{BulkQueue, new, push, delivery, next, next_of, done, close}
use keep_talking_sfu.Server.BulkQueue.Push.{total, total-append, IsValid, push_cases}

-- The queue and the deliveries that the dispatcher has on streams.
pub record Bulk : Type 0 where
  pub queue : BulkQueue
  pub streams : List Deliver

abbrev pub remove_at : ℕ → List Deliver → List Deliver
remove_at n [] = []
remove_at zero (d ∷ ds) = ds
remove_at (suc n) (d ∷ ds) = d ∷ remove_at n ds

abbrev pub at : ℕ → List Deliver → Option Deliver
at n [] = none
at zero (d ∷ ds) = some d
at (suc n) (d ∷ ds) = at n ds

-- One step: a delivery is pushed, one goes on a stream, one leaves its stream, the queue closes.
-- Deliveries have at most `m` bytes, and at most `slots` are on streams.
pub data Step (m slots : ℕ) (b c : Bulk) : Type 0 where
  pushes :
      (d : Deliver) → len d ≤ m → c ≡ record b { queue = (push b.queue d).0 } → Step m slots b c
  starts :
      (d : Deliver)
      → length b.streams < slots
      → (next b.queue).1 ≡ delivery d
      → c ≡ record { queue = (next b.queue).0; streams = b.streams ++ d ∷ [] }
      → Step m slots b c
  finishes :
      (n : ℕ) (d : Deliver)
      → at n b.streams ≡ some d
      → c ≡ record { queue = done b.queue (len d); streams = remove_at n b.streams }
      → Step m slots b c
  closes : c ≡ record b { queue = close b.queue } → Step m slots b c

pub data Reach (m slots budget : ℕ) : Bulk → Type 0 where
  begins : Reach m slots budget (record { queue = new budget; streams = [] })
  steps : {b c : Bulk} → Reach m slots budget b → Step m slots b c → Reach m slots budget c

-- What is counted is what waits and what is on streams, within the budget or one delivery.
pub record Inv (m slots budget : ℕ) (b : Bulk) : Type 0 where
  pub same_budget : b.queue.budget ≡ budget
  pub waiting_counted : b.queue.state.waiting_bytes ≡ total b.queue.state.waiting
  pub counted : b.queue.state.bytes ≡ total b.queue.state.waiting + total b.streams
  pub bounded : b.queue.state.bytes ≤ max budget m
  pub in_slots : length b.streams ≤ slots

Inv-IsValid : {m slots budget : ℕ} {b : Bulk} → Inv m slots budget b → IsValid b.queue
Inv-IsValid v = record { waiting_counted = v.waiting_counted; part = omega arith }

push-Inv :
    (m slots budget : ℕ) (b : Bulk) (d : Deliver)
    → len d ≤ m
    → Inv m slots budget b
    → Inv m slots budget (record b { queue = (push b.queue d).0 })
push-Inv m slots budget b d h v = elim (Bool-cases b.queue.state.closed) [
  | inl shut ↦ unfold push in simp shut v
  | inr open_queue ↦ elim (push_cases b.queue d (Inv-IsValid v) open_queue) [
    | inl refused ↦ rw (refused.0) v
    | inr t ↦ record {
      same_budget = t.same.1 ∙ v.same_budget;
      waiting_counted = t.waiting_bytes;
      counted = omega (arith, t.bytes, v.counted, v.waiting_counted);
      bounded = ground (arith, t.fits, v.same_budget);
      in_slots = v.in_slots;
    }
  ]
]

start-Inv :
    (m slots budget : ℕ) (q : BulkQueue) (ws ds : List Deliver) (d : Deliver)
    → q.state.waiting ≡ ws
    → length ds < slots
    → (next_of q ws).1 ≡ delivery d
    → Inv m slots budget (record { queue = q; streams = ds })
    → Inv m slots budget (record { queue = (next_of q ws).0; streams = ds ++ d ∷ [] })
start-Inv m slots budget q [] ds d e h n v = ground arith
start-Inv m slots budget q (w ∷ ws) ds d e h n v =
    ground (arith, total-append ds (d ∷ []), length-append ds (d ∷ []), ap total e)

total-remove_at :
    (n : ℕ) (ds : List Deliver) (d : Deliver)
    → at n ds ≡ some d
    → (len d + total (remove_at n ds) ≡ total ds) × (length (remove_at n ds) + 1 ≡ length ds)
total-remove_at n [] d h = cc
total-remove_at zero (x ∷ ds) d h = ground arith
total-remove_at (suc n) (x ∷ ds) d h = omega (arith, total-remove_at n ds d h)

Step-Inv :
    {m slots budget : ℕ} {b c : Bulk}
    → Step m slots b c
    → Inv m slots budget b
    → Inv m slots budget c
unfolding next done close
Step-Inv {m} {slots} {budget} {b} (pushes d h e) v = rw e (push-Inv m slots budget b d h v)
Step-Inv {m} {slots} {budget} {b} (starts d h n e) v =
    rw e (start-Inv m slots budget b.queue b.queue.state.waiting b.streams d refl h n v)
Step-Inv {b = b} (finishes n d h e) v = ground (arith, total-remove_at n b.streams d h)
Step-Inv (closes e) v = ground arith

-- In every state that pushes of deliveries of at most `m` bytes, starts, finishes and closes reach
-- from an empty queue, the queue counts exactly the bytes of the deliveries that wait and of those
-- on streams, at most `slots` are on streams, and the bytes are within the budget, or within `m` if
-- that is more.
pub Reach-Inv : {m slots budget : ℕ} {b : Bulk} → Reach m slots budget b → Inv m slots budget b
unfolding new
Reach-Inv begins = omega arith
Reach-Inv (steps r s) = Step-Inv s (Reach-Inv r)
