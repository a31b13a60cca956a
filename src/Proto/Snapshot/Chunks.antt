-- ===== src/Proto/Snapshot/Chunks.antt =====
-- The chunks of a snapshot: nothing is lost, the bounds hold, and MORE is right.
use keep_talking_sfu.Prelude.{
  ℕ, zero, suc, ◌+◌, ◌≤◌, ◌<◌, ◌≡◌, ◌⊎◌, inl, inr, refl, sym, ap, ◌∙◌, Bool, true, false, List, [],
  ◌∷◌, ◌++◌, All, length, Bool-cases, arith, length-append,
}
use keep_talking_sfu.Proto.ServerFrame.{Member, snapshot_entry_len, entries_len, snapshot_head_len}
use keep_talking_sfu.Proto.Ids.{EndpointIds}
use keep_talking_sfu.Proto.Topic.{Topic}
use keep_talking_sfu.Proto.Snapshot.{
  clamp_entries, is_nil, take_chunk, snapshot_parts, encode_parts, encode_snapshot,
}

module _ {EndpointId : Type 0} where
  -- The chunk is a front of the members.
  take_chunk-append :
      (e b count body : ℕ) (ms : List (Member EndpointId))
      → (take_chunk e b count body ms).0 ++ (take_chunk e b count body ms).1 ≡ ms
  unfolding take_chunk
  take_chunk-append e b count body [] = refl
  take_chunk-append e b count body (m ∷ ms) =
      ground (arith, take_chunk-append e b (count + 1) (body + snapshot_entry_len m) ms)

  -- It has room for its entries and bytes, or holds one entry alone.
  take_chunk_bounds :
      (e b count body : ℕ) (ms : List (Member EndpointId))
      → count ≤ e
      → let chunk = (take_chunk e b count body ms).0 in
        (count + length chunk ≤ e)
        × ((count + length chunk ≤ 1) ⊎ (chunk ≡ []) ⊎ (body + entries_len chunk ≤ b))
  unfolding take_chunk entries_len
  take_chunk_bounds e b count body [] h = (omega arith, inr (inl refl))
  take_chunk_bounds e b count body (m ∷ ms) h =
      ground (arith, take_chunk_bounds e b (count + 1) (body + snapshot_entry_len m) ms)

  -- From the start of a chunk a member is taken, if there is one.
  take_chunk_takes :
      (e b body : ℕ) (m : Member EndpointId) (ms : List (Member EndpointId))
      → 0 < e
      → 0 < length (take_chunk e b 0 body (m ∷ ms)).0
  unfolding take_chunk
  take_chunk_takes e b body m ms h = ground arith

  -- The members of the chunks, in order.
  abbrev pub union : List (Bool × List (Member EndpointId)) → List (Member EndpointId)
  union [] = []
  union ((more, chunk) ∷ parts) = chunk ++ union parts

  -- MORE is set on every chunk but the last, and there is a last one.
  abbrev pub MoreToLast : List (Bool × List (Member EndpointId)) → Type 0
  MoreToLast [] = ⊥
  MoreToLast ((more, chunk) ∷ []) = more ≡ false
  MoreToLast ((more, chunk) ∷ q ∷ parts) = (more ≡ true) × MoreToLast (q ∷ parts)

  -- At most `e` entries, and at most `b` bytes of body unless there is one entry.
  abbrev pub Within : ℕ → ℕ → Bool × List (Member EndpointId) → Type 0
  Within e b part =
      (length part.1 ≤ e) × ((length part.1 ≤ 1) ⊎ (snapshot_head_len + entries_len part.1 ≤ b))

  chunk-Within :
      (e b : ℕ) (more : Bool) (ms : List (Member EndpointId))
      → 0 < e
      → Within e b (more, (take_chunk e b 0 snapshot_head_len ms).0)
  chunk-Within e b more ms h =
      let (few, fit) = take_chunk_bounds e b 0 snapshot_head_len ms (omega arith) in
      (
        omega (arith, few),
        elim fit [
          | inl one ↦ inl (omega (arith, one))
          | inr other ↦ elim other [
            | inl empty ↦ inl (rw empty (omega arith))
            | inr small ↦ inr small
          ]
        ],
      )

  More-cons :
      (chunk : List (Member EndpointId)) (parts : List (Bool × List (Member EndpointId)))
      → MoreToLast parts
      → MoreToLast ((true, chunk) ∷ parts)
  More-cons chunk [] h = absurd h
  More-cons chunk (q ∷ parts) h = (refl, h)

  is_nil-eq : (ms : List (Member EndpointId)) → is_nil ms ≡ true → ms ≡ []
  is_nil-eq [] h = refl
  is_nil-eq (m ∷ ms) h = ground arith

  length-rest :
      (e b : ℕ) (ms : List (Member EndpointId))
      → 0 < e
      → is_nil (take_chunk e b 0 snapshot_head_len ms).1 ≡ false
      → length (take_chunk e b 0 snapshot_head_len ms).1 < length ms
  unfolding take_chunk
  length-rest e b [] h some_left = ground arith
  length-rest e b (m ∷ ms) h some_left =
      let r = take_chunk e b 0 snapshot_head_len (m ∷ ms) in
      omega (
        arith,
        take_chunk_takes e b snapshot_head_len m ms h,
        length-append r.0 r.1,
        ap length (take_chunk-append e b 0 snapshot_head_len (m ∷ ms)),
      )

  pub union-snapshot_parts :
      (fuel e b : ℕ) (ms : List (Member EndpointId))
      → 0 < e
      → length ms < fuel
      → (union (snapshot_parts fuel e b ms) ≡ ms)
        × MoreToLast (snapshot_parts fuel e b ms)
        × All (Within e b) (snapshot_parts fuel e b ms)
  unfolding snapshot_parts
  union-snapshot_parts zero e b ms h enough = elim enough [ ]
  union-snapshot_parts (suc fuel) e b ms h enough =
      let r = take_chunk e b 0 snapshot_head_len ms in
      elim (Bool-cases (is_nil r.1)) [
        | inl last ↦ rw last (
          ap (λ t. r.0 ++ t) (sym (is_nil-eq r.1 last))
              ∙ take_chunk-append e b 0 snapshot_head_len ms,
          refl,
          (chunk-Within e b false ms h, tt),
        )
        | inr left ↦
            let (all, more, within) =
              union-snapshot_parts fuel e b r.1 h (omega (arith, length-rest e b ms h left)) in
            rw left (
              ap (λ t. r.0 ++ t) all ∙ take_chunk-append e b 0 snapshot_head_len ms,
              More-cons r.0 _ more,
              (chunk-Within e b true ms h, within),
            )
      ]

module _ {EndpointId : Type 0} ⦃ids : EndpointIds EndpointId⦄ where
  -- The frames of `encode_snapshot` are the encodings of parts such that the members of the parts,
  -- in order, are the members asked for, each once; MORE is set on every part but the last, and
  -- there is a last part; and each part has at most the clamped number of entries and at most
  -- `max_body` bytes, unless it is a single entry that is larger by itself.
  pub encode_snapshot-parts :
      (t : Topic) (ms : List (Member EndpointId)) (max_entries max_body : ℕ)
      → let parts = snapshot_parts (suc (length ms)) (clamp_entries max_entries) max_body ms in
        (encode_snapshot t ms max_entries max_body ≡ encode_parts t parts)
        × (union parts ≡ ms)
        × MoreToLast parts
        × All (Within (clamp_entries max_entries) max_body) parts
  unfolding encode_snapshot
  encode_snapshot-parts t ms max_entries max_body =
      let (all, more, within) =
        union-snapshot_parts (suc (length ms)) (clamp_entries max_entries) max_body ms (omega arith)
          (omega arith) in
      (refl, all, more, within)
