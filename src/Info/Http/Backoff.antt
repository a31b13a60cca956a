-- ===== src/Info/Http/Backoff.antt =====
-- The delays of `serve` between failed accepts.
use keep_talking_sfu.Prelude.{
  ℕ, zero, suc, ◌*◌, ◌^◌, ◌≡◌, ◌∙◌, refl, ap, min, Bool, false, Option, some, List, [], ◌∷◌, arith,
}
use native.Mathlib.Numerals.{unary_clauses}
use keep_talking_sfu.Info.Http.{backoff_min, backoff_max, accept_turn, sleeps}

-- The delay behind so many failures in a row.
abbrev pub delay : ℕ → ℕ
delay k = min (backoff_min * 2 ^ k) backoff_max

abbrev pub failures : ℕ → List Bool
failures zero = []
failures (suc n) = false ∷ failures n

abbrev pub delays : ℕ → ℕ → List (Option ℕ)
delays zero k = []
delays (suc n) k = some (delay k) ∷ delays n (suc k)

delay-suc : (k : ℕ) → min (delay k * 2) backoff_max ≡ delay (suc k)
delay-suc k = simp unary_clauses (omega arith)

-- The delay before a retry is 50 ms, doubled with each failure behind the last accept, and two
-- seconds at most: from where `k` accepts in a row have failed, the next `n` failures sleep for
-- these times.
pub sleeps-delays : (n k : ℕ) → sleeps (failures n) (delay k) ≡ delays n k
unfolding sleeps accept_turn
sleeps-delays zero k = refl
sleeps-delays (suc n) k =
    ap (λ d. some (delay k) ∷ sleeps (failures n) d) (delay-suc k)
    ∙ ap (λ xs. some (delay k) ∷ xs) (sleeps-delays n (suc k))
