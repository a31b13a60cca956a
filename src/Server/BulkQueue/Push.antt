-- ===== src/Server/BulkQueue/Push.antt =====
-- What `push` keeps and what it drops.
use keep_talking_sfu.Prelude.{
  ℕ, zero, suc, ◌+◌, ◌-◌, ◌≤◌, ◌<◌, ◌≡◌, ◌⊎◌, inl, inr, refl, ap, true, false, List, [], ◌∷◌, ◌++◌,
  length, drop, ltb, Bool-cases, ◌&&◌, arith,
}
use keep_talking_sfu.Server.Deliver.{Deliver, len}
use keep_talking_sfu.Server.BulkQueue.{BulkQueue, make_room, append, on_streams, push}

abbrev pub total : List Deliver → ℕ
total [] = 0
total (d ∷ ds) = len d + total ds

pub total-append : (xs ys : List Deliver) → total (xs ++ ys) ≡ total xs + total ys
total-append [] ys = omega arith
total-append (d ∷ xs) ys = omega (arith, total-append xs ys)

-- Of `bytes` counted, the waiting deliveries are a part, and `waiting_bytes` is what they count.
pub record IsValid (q : BulkQueue) : Type 0 where
  pub waiting_counted : q.state.waiting_bytes ≡ total q.state.waiting
  pub part : q.state.waiting_bytes ≤ q.state.bytes

-- What the loop of `push` does: it takes `k` deliveries off the front, as many as it says; what is
-- left fits, unless nothing is counted or nothing waits; and one dropped less would not have fitted.
pub record MadeRoom (budget size : ℕ) (ws : List Deliver) (b d : ℕ) (r : List Deliver × ℕ × ℕ × ℕ)
    : Type 0 where
  pub k : ℕ
  pub rest : r.0 ≡ drop k ws
  pub waiting_counted : r.1 ≡ total r.0
  pub bytes_counted : r.2 + total ws ≡ b + total r.0
  pub dropped : r.3 ≡ d + k
  pub few : k ≤ length ws
  pub fits : (r.2 ≡ 0) ⊎ ((r.2 + size ≤ budget) ⊎ (r.0 ≡ []))
  pub needed : (j : ℕ) → j < k → budget + total ws < b + total (drop j ws) + size

module _ (budget size : ℕ) (o : Deliver) (ws : List Deliver) (b d : ℕ) where
  MadeRoom-stop :
      (wb : ℕ)
      → wb ≡ total (o ∷ ws)
      → (ltb 0 b && ltb budget (b + size)) ≡ false
      → MadeRoom budget size (o ∷ ws) b d (o ∷ ws, wb, b, d)
  MadeRoom-stop wb counted stop = record {
    k = 0;
    rest = refl;
    waiting_counted = counted;
    bytes_counted = refl;
    dropped = omega arith;
    few = omega arith;
    fits = ground arith;
    needed = λ j h. absurd (omega arith);
  }

  MadeRoom-cons :
      (r : List Deliver × ℕ × ℕ × ℕ)
      → len o + total ws ≤ b
      → (ltb 0 b && ltb budget (b + size)) ≡ true
      → MadeRoom budget size ws (b - len o) (d + 1) r
      → MadeRoom budget size (o ∷ ws) b d r
  MadeRoom-cons r part go m = record {
    k = suc m.k;
    rest = m.rest;
    waiting_counted = m.waiting_counted;
    bytes_counted = omega (arith, m.bytes_counted);
    dropped = omega (arith, m.dropped);
    few = omega (arith, m.few);
    fits = m.fits;
    needed = needed;
  }
    where
      needed :
          (j : ℕ) → j < suc m.k → budget + (len o + total ws) < b + total (drop j (o ∷ ws)) + size
      needed zero h = ground arith
      needed (suc j) h = omega (arith, m.needed j (omega arith))

pub make_room-MadeRoom :
    (budget size : ℕ) (ws : List Deliver) (wb b d : ℕ)
    → wb ≡ total ws
    → wb ≤ b
    → MadeRoom budget size ws b d (make_room budget size ws wb b d)
unfolding make_room
make_room-MadeRoom budget size [] wb b d counted part = record {
  k = 0;
  rest = refl;
  waiting_counted = counted;
  bytes_counted = refl;
  dropped = omega arith;
  few = omega arith;
  fits = inr (inr refl);
  needed = λ j h. absurd (omega arith);
}
make_room-MadeRoom budget size (o ∷ ws) wb b d counted part =
    elim (Bool-cases (ltb 0 b && ltb budget (b + size))) [
      | inl go ↦ rw go (
          MadeRoom-cons budget size o ws b d _ (omega arith) go (
            make_room-MadeRoom budget size ws (wb - len o) (b - len o) (d + 1) (omega arith)
              (omega arith)))
      | inr stop ↦ rw stop (MadeRoom-stop budget size o ws b d wb counted stop)
    ]

-- A push that is taken: `k` of the oldest waiting deliveries make way, and no more than needed; the
-- rest keep their order in front of the new one; the budget holds, or the new one is all there is.
pub record Taken (q : BulkQueue) (frame : Deliver) (r : BulkQueue × ℕ) : Type 0 where
  pub waiting : r.0.state.waiting ≡ drop r.1 q.state.waiting ++ frame ∷ []
  pub dropped_waiting : r.1 ≤ length q.state.waiting
  pub bytes : r.0.state.bytes ≡ on_streams q + total r.0.state.waiting
  pub waiting_bytes : r.0.state.waiting_bytes ≡ total r.0.state.waiting
  pub same : (r.0.state.closed ≡ q.state.closed) × (r.0.budget ≡ q.budget)
  pub fits : (r.0.state.bytes ≤ q.budget) ⊎ (r.0.state.bytes ≡ len frame)
  pub needed :
      (j : ℕ) → j < r.1 → q.budget < on_streams q + total (drop j q.state.waiting) + len frame

taken :
    (q : BulkQueue) (frame : Deliver) (r : List Deliver × ℕ × ℕ × ℕ)
    → IsValid q
    → (ltb 0 (on_streams q) && ltb q.budget (on_streams q + len frame)) ≡ false
    → MadeRoom q.budget (len frame) q.state.waiting q.state.bytes 0 r
    → Taken q frame (append q frame r)
taken q frame r v room m = record {
  waiting = rw (m.dropped, m.rest) (ap (λ n. drop n q.state.waiting ++ frame ∷ []) (omega arith));
  dropped_waiting = omega (arith, m.dropped, m.few);
  bytes = omega (arith, total-append r.0 (frame ∷ []), m.bytes_counted, v.waiting_counted, v.part);
  waiting_bytes = omega (arith, total-append r.0 (frame ∷ []), m.waiting_counted);
  same = (refl, refl);
  fits = elim m.fits [
    | inl none_left ↦ inr (omega (arith, none_left))
    | inr other ↦ elim other [
      | inl small ↦ inl small
      | inr empty ↦ ground (arith, ap total empty, m.bytes_counted, v.waiting_counted, v.part)
    ]
  ];
  needed = λ j h. omega (arith, m.needed j (omega (arith, m.dropped)), v.waiting_counted, v.part);
}

push_taken :
    (q : BulkQueue) (frame : Deliver)
    → q.state.closed ≡ false
    → (ltb 0 (on_streams q) && ltb q.budget (on_streams q + len frame)) ≡ false
    → push q frame
      ≡ append q frame
          (make_room q.budget (len frame) q.state.waiting q.state.waiting_bytes q.state.bytes 0)
unfolding push
push_taken q frame open_queue room = simp (open_queue, room) refl

-- `push` on an open queue with valid counts drops the new delivery when those on streams leave no
-- room for it, changing nothing, and else it takes it as `Taken` says.
pub push_cases :
    (q : BulkQueue) (frame : Deliver)
    → IsValid q
    → q.state.closed ≡ false
    → ((push q frame ≡ (q, 1)) × (0 < on_streams q) × (q.budget < on_streams q + len frame))
      ⊎ Taken q frame (push q frame)
unfolding push
push_cases q frame v open_queue =
    elim (Bool-cases (ltb 0 (on_streams q) && ltb q.budget (on_streams q + len frame))) [
      | inl full ↦ inl (simp (open_queue, full) refl, ground arith, ground arith)
      | inr room ↦ inr (
          rw (push_taken q frame open_queue room) (
            taken q frame _ v room (
              make_room-MadeRoom q.budget (len frame) q.state.waiting q.state.waiting_bytes
                q.state.bytes 0 v.waiting_counted v.part)))
    ]
