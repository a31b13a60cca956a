-- ===== src/Server/Writers/Failures.antt =====
-- A writer fails only where the transport did: it refused a write or an opening, or let it run out
-- of time.
use keep_talking_sfu.Prelude.{
  ℕ, zero, suc, ◌≡◌, ◌⊎◌, ◌∙◌, refl, sym, ap, Option, none, some, List, [], ◌∷◌, ◌++◌, flatten,
  length-append, append_assoc, arith,
}
use keep_talking_sfu.Prelude.Wire.{Bytes}
use keep_talking_sfu.Transport.{
  Transport, IsTransport, Took, Write, took, refused, late, denied, no_credit,
}
use keep_talking_sfu.Server.Writers.{
  WriteFailure, closed, stalled, Written, written, failed, out_of_fuel, skip_empty, after_write,
  after_skip, write_on, write_chunks,
}
use keep_talking_sfu.Server.Writers.Chunks.{HasFirst, skip_empty-HasFirst, flatten-skip_empty}

-- How the transport reports a failure of a write.
abbrev pub reported : WriteFailure → Write
reported closed = refused
reported stalled = late

module _ (C : Type 0) ⦃net : Transport C⦄ where
  -- A write on the stream that came to this, of all that was left of these bytes.
  abbrev pub Failed : ℕ → Bytes → WriteFailure → Type 0
  Failed i bytes x =
      (chunks : List Bytes) × (c : C) × ((net.write_many_chunks i chunks c).1 ≡ reported x)
      × (net.sent i c ++ flatten chunks ≡ bytes)

  -- On a stream that is open, a write that the transport refused; without one, an opening that it
  -- denied, or a write on the stream that it opened.
  abbrev pub Refused : Option ℕ → Bytes → Type 0
  Refused (some i) bytes = Failed i bytes closed
  Refused none bytes = ((i : ℕ) × Failed i bytes closed) ⊎ ((c : C) × ((net.open_uni c).1 ≡ denied))

  -- A write or an opening that ran out of time.
  abbrev pub RanOut : Bytes → Type 0
  RanOut bytes = ((i : ℕ) × Failed i bytes stalled) ⊎ ((c : C) × ((net.open_uni c).1 ≡ no_credit))

  abbrev pub Honest : ℕ → Bytes → Written → Type 0
  Honest i bytes written = Unit {0}
  Honest i bytes (failed x) = Failed i bytes x
  Honest i bytes out_of_fuel = Unit {0}

module _ {C : Type 0} ⦃net : Transport C⦄ (laws : IsTransport C) (i : ℕ) (bytes : Bytes) where
  after_write-Honest :
      (go : List Bytes → C → C × Written) (chunks : List Bytes) (c : C) (r : C × Write)
      → (net.write_many_chunks i chunks c).1 ≡ r.1
      → Took i chunks c r
      → net.sent i c ++ flatten chunks ≡ bytes
      → ((rest : List Bytes) (d : C)
          → net.sent i d ++ flatten rest ≡ bytes
          → Honest C i bytes (go rest d).1)
      → Honest C i bytes (after_write go r).1
  after_write-Honest go chunks c (c', took rest) e (k, cut, grew, less) left h = h rest c' (
      ap (λ b. b ++ flatten rest) grew
      ∙ append_assoc (net.sent i c) k (flatten rest)
      ∙ ap (λ b. net.sent i c ++ b) (sym cut)
      ∙ left)
  after_write-Honest go chunks c (c', refused) e same left h = (chunks, c, e, left)
  after_write-Honest go chunks c (c', late) e same left h = (chunks, c, e, left)

  after_skip-Honest :
      (go : List Bytes → C → C × Written) (c : C) (chunks : List Bytes)
      → HasFirst chunks
      → net.sent i c ++ flatten chunks ≡ bytes
      → ((rest : List Bytes) (d : C)
          → net.sent i d ++ flatten rest ≡ bytes
          → Honest C i bytes (go rest d).1)
      → Honest C i bytes (after_skip go i c chunks).1
  after_skip-Honest go c [] first left h = tt
  after_skip-Honest go c (chunk ∷ rest) first left h =
      after_write-Honest go (chunk ∷ rest) c (net.write_many_chunks i (chunk ∷ rest) c) refl
        (laws.write_many i (chunk ∷ rest) c (omega (arith, length-append chunk (flatten rest))))
        left h

  write_on-Honest :
      (fuel : ℕ) (chunks : List Bytes) (c : C)
      → net.sent i c ++ flatten chunks ≡ bytes
      → Honest C i bytes (write_on fuel i chunks c).1
  unfolding write_on
  write_on-Honest zero chunks c left = tt
  write_on-Honest (suc fuel) chunks c left =
      after_skip-Honest (λ r d. write_on fuel i r d) c (skip_empty chunks)
        (skip_empty-HasFirst chunks)
        (ap (λ b. net.sent i c ++ b) (flatten-skip_empty chunks) ∙ left)
        (λ rest d. write_on-Honest fuel rest d)

  pub write_chunks-Honest :
      (chunks : List Bytes) (c : C)
      → net.sent i c ++ flatten chunks ≡ bytes
      → Honest C i bytes (write_chunks i chunks c).1
  unfolding write_chunks
  write_chunks-Honest chunks c left = write_on-Honest _ chunks c left
