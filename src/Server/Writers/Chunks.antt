-- ===== src/Server/Writers/Chunks.antt =====
-- `write_chunks`: it returns, and the stream takes a front of the chunks, all of them on success.
use keep_talking_sfu.Prelude.{
  ℕ, zero, suc, ◌<◌, ◌≡◌, ◌∙◌, refl, sym, ap, List, [], ◌∷◌, ◌++◌, length, flatten, arith,
  append_assoc, append-nil, length-append, subst,
}
use keep_talking_sfu.Prelude.Wire.{Bytes}
use keep_talking_sfu.Transport.{Transport, IsTransport, Write, took, refused, late, Took}
use keep_talking_sfu.Server.Writers.{
  Written, written, failed, out_of_fuel, skip_empty, after_write, after_skip, write_on,
  write_chunks,
}

pub flatten-skip_empty : (chunks : List Bytes) → flatten (skip_empty chunks) ≡ flatten chunks
unfolding skip_empty
flatten-skip_empty [] = refl
flatten-skip_empty ([] ∷ rest) = flatten-skip_empty rest
flatten-skip_empty ((b ∷ bs) ∷ rest) = refl

-- The first chunk is not empty.
abbrev pub HasFirst : List Bytes → Type 0
HasFirst [] = Unit {0}
HasFirst (chunk ∷ rest) = 0 < length chunk

pub skip_empty-HasFirst : (chunks : List Bytes) → HasFirst (skip_empty chunks)
unfolding skip_empty
skip_empty-HasFirst [] = tt
skip_empty-HasFirst ([] ∷ rest) = skip_empty-HasFirst rest
skip_empty-HasFirst ((b ∷ bs) ∷ rest) = omega arith

module _ {C : Type 0} ⦃net : Transport C⦄ where
  -- What a write of these bytes did: all of them are on the stream, or a front of them.
  abbrev pub Wrote : ℕ → Bytes → C → C × Written → Type 0
  Wrote i bytes c (c', written) = net.sent i c' ≡ net.sent i c ++ bytes
  Wrote i bytes c (c', failed x) =
      (k rest : Bytes) × (bytes ≡ k ++ rest) × (net.sent i c' ≡ net.sent i c ++ k)
  Wrote i bytes c (c', out_of_fuel) = ⊥

  Wrote-append :
      (i : ℕ) (bytes k rest : Bytes) (c c' : C) (r : C × Written)
      → bytes ≡ k ++ rest
      → net.sent i c' ≡ net.sent i c ++ k
      → Wrote i rest c' r
      → Wrote i bytes c r
  Wrote-append i bytes k rest c c' (d, written) cut grew w =
      w
      ∙ ap (λ b. b ++ rest) grew
      ∙ append_assoc (net.sent i c) k rest
      ∙ ap (λ b. net.sent i c ++ b) (sym cut)
  Wrote-append i bytes k rest c c' (d, failed x) cut grew (k', rest', cut', grew') = (
    k ++ k',
    rest',
    cut ∙ ap (λ b. k ++ b) cut' ∙ sym (append_assoc k k' rest'),
    grew' ∙ ap (λ b. b ++ k') grew ∙ append_assoc (net.sent i c) k k',
  )
  Wrote-append i bytes k rest c c' (d, out_of_fuel) cut grew w = absurd w

  after_write-Wrote :
      (go : List Bytes → C → C × Written) (i : ℕ) (chunks : List Bytes) (c : C) (r : C × Write)
      → Took i chunks c r
      → ((rest : List Bytes) (d : C)
          → length (flatten rest) < length (flatten chunks)
          → Wrote i (flatten rest) d (go rest d))
      → Wrote i (flatten chunks) c (after_write go r)
  after_write-Wrote go i chunks c (c', took rest) (k, cut, grew, less) h =
      Wrote-append i (flatten chunks) k (flatten rest) c c' (go rest c') cut grew (h rest c' less)
  after_write-Wrote go i chunks c (c', refused) same h =
      ([], flatten chunks, refl, same ∙ sym (append-nil (net.sent i c)))
  after_write-Wrote go i chunks c (c', late) same h =
      ([], flatten chunks, refl, same ∙ sym (append-nil (net.sent i c)))

module _ {C : Type 0} ⦃net : Transport C⦄ (laws : IsTransport C) where
  after_skip-Wrote :
      (go : List Bytes → C → C × Written) (i : ℕ) (c : C) (chunks : List Bytes)
      → HasFirst chunks
      → ((rest : List Bytes) (d : C)
          → length (flatten rest) < length (flatten chunks)
          → Wrote i (flatten rest) d (go rest d))
      → Wrote i (flatten chunks) c (after_skip go i c chunks)
  after_skip-Wrote go i c [] first h = sym (append-nil (net.sent i c))
  after_skip-Wrote go i c (chunk ∷ rest) first h =
      after_write-Wrote go i (chunk ∷ rest) c (net.write_many_chunks i (chunk ∷ rest) c)
        (laws.write_many i (chunk ∷ rest) c (omega (arith, length-append chunk (flatten rest)))) h

  write_on-Wrote :
      (fuel i : ℕ) (chunks : List Bytes) (c : C)
      → length (flatten chunks) < fuel
      → Wrote i (flatten chunks) c (write_on fuel i chunks c)
  unfolding write_on
  write_on-Wrote zero i chunks c h = elim h [ ]
  write_on-Wrote (suc fuel) i chunks c h =
      let same = flatten-skip_empty chunks in
      subst (λ b. Wrote i b c (after_skip (λ r d. write_on fuel i r d) i c (skip_empty chunks)))
        same
        (after_skip-Wrote (λ r d. write_on fuel i r d) i c (skip_empty chunks)
          (skip_empty-HasFirst chunks)
          (λ rest d less. write_on-Wrote fuel i rest d (omega (arith, less, ap length same))))

  -- `write_chunks` returns. Where it answers `Ok`, the stream took all of the chunks behind what it
  -- had; where it fails, it took a front of them, cut anywhere. The transport takes some bytes with
  -- each write that succeeds and none with one that fails or times out.
  pub write_chunks-Wrote :
      (i : ℕ) (chunks : List Bytes) (c : C) → Wrote i (flatten chunks) c (write_chunks i chunks c)
  unfolding write_chunks
  write_chunks-Wrote i chunks c =
      write_on-Wrote (suc (length (flatten chunks))) i chunks c (omega arith)
