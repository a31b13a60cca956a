-- ===== src/Server/Outbound/Budget.antt =====
-- The byte budget of the session stream and the control and interactive lanes.
use keep_talking_sfu.Prelude.{ℕ, ◌+◌, ◌^◌, ◌≤◌, ◌<◌, ◌≡◌, max, List, [], ◌∷◌, ◌++◌, arith}
use keep_talking_sfu.Proto.Lane.{Lane, control, interactive, bulk}
use keep_talking_sfu.Server.Deliver.{Deliver, len}
use keep_talking_sfu.Server.Outbound.{SessionItem, Queued, Outbound, push_session, deliver}

module _ {A : Type 0} where
  abbrev pub sizes : List (Queued A) → ℕ
  sizes [] = 0
  sizes (q ∷ qs) = q.size + sizes qs

  pub sizes-append : (xs ys : List (Queued A)) → sizes (xs ++ ys) ≡ sizes xs + sizes ys
  sizes-append [] ys = omega arith
  sizes-append (q ∷ xs) ys = omega (arith, sizes-append xs ys)

-- The budget counts what is queued, and the `held` bytes that a writer has taken from its queue and
-- not yet released. It stays within the limit, or within one frame of at most `m` bytes; both are
-- far from where 64 bits wrap.
pub record IsCounted {EndpointId : Type 0} (m held : ℕ) (o : Outbound EndpointId) : Type 0 where
  pub counted : o.queued ≡ sizes o.session + sizes o.control_lane + sizes o.interactive_lane + held
  pub bounded : o.queued ≤ max o.limit m
  pub small : (o.limit < 2 ^ 62) × (m < 2 ^ 62)

module _ {EndpointId : Type 0} (m held : ℕ) (o : Outbound EndpointId) where
  -- Pushing an item of at most `m` bytes on the session stream keeps the budget exact and within
  -- the limit or `m`, whether the item is queued, refused or released.
  pub push_session-IsCounted :
      (item : SessionItem EndpointId) (size : ℕ)
      → size ≤ m
      → IsCounted m held o
      → IsCounted m held (push_session item size o)
  unfolding push_session
  push_session-IsCounted item size h v =
      ground (arith, sizes-append o.session (record { item = item; size = size } ∷ []))

  -- A DELIVER of at most `m` bytes on any lane keeps the budget exact and within the limit or `m`.
  pub deliver-IsCounted :
      (lane : Lane) (d : Deliver)
      → len d ≤ m
      → IsCounted m held o
      → IsCounted m held (deliver lane d o).0
  unfolding deliver
  deliver-IsCounted control d h v =
      ground (arith, sizes-append o.control_lane (record { item = d; size = len d } ∷ []))
  deliver-IsCounted interactive d h v =
      ground (arith, sizes-append o.interactive_lane (record { item = d; size = len d } ∷ []))
  deliver-IsCounted bulk d h v = ground arith
