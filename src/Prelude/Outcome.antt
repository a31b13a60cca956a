-- ===== src/Prelude/Outcome.antt =====
-- Results of fallible code: a value, an error that the caller handles, or a panic of the task.
use mathlib.Core.Path.{◌≡◌}
use mathlib.Core.Logic.{◌≢◌}
use mathlib.Core.Bool.{Bool, true, false}

pub data Outcome {ℓ} (E A : Type ℓ) : Type ℓ where
  ok : A → Outcome E A
  err : E → Outcome E A
  panic : Outcome E A

infixl 5 ◌>>=◌ ◌>>◌
abbrev pub ◌>>=◌ {ℓ} : {E A B : Type ℓ} → Outcome E A → (A → Outcome E B) → Outcome E B
ok a >>= f = f a
err e >>= f = err e
panic >>= f = panic

abbrev pub ◌>>◌ {ℓ} : {E B : Type ℓ} → Outcome E (Unit {ℓ}) → Outcome E B → Outcome E B
m >> k = m >>= λ _. k

-- `anyhow::ensure!`
abbrev pub ensure {ℓ} : {E : Type ℓ} → Bool → E → Outcome E (Unit {ℓ})
ensure true e = ok tt
ensure false e = err e

pub err-panic {ℓ} : {E A : Type ℓ} (e : E) → (let r : Outcome E A = err e in r ≢ panic)
err-panic e p = cc

pub ok-panic {ℓ} : {E A : Type ℓ} (a : A) → (let r : Outcome E A = ok a in r ≢ panic)
ok-panic a p = cc

pub err-ok {ℓ} : {E A : Type ℓ} (e : E) (a : A) → err e ≢ ok a
err-ok e a p = cc

pub ok-inj {ℓ} : {E A : Type ℓ} (a b : A) → (let r : Outcome E A = ok a in r ≡ ok b) → a ≡ b
ok-inj a b p = cc
