-- ===== src/Proto/Stream/Reassembly.antt =====
-- `read_frame` against a specification on the whole content of the stream.
use keep_talking_sfu.Prelude.{
  ℕ, zero, suc, ◌+◌, ◌-◌, ◌≤◌, ◌<◌, ◌≡◌, ◌⊎◌, inl, inr, refl, sym, ap, ◌∙◌, min, max, List, [], ◌∷◌,
  ◌++◌, length, take, drop, get_or, flatten, ltb, Bool-cases, leb, ◌&&◌, if◌then◌else◌, arith,
  length-append, length-take, take-append-drop, append-nil, append_assoc, take-append_add,
  drop-append_add, ltb→lt, lt→ltb,
}
use keep_talking_sfu.Prelude.Wire.{Bytes}
use keep_talking_sfu.Proto.Limits.{max_frame_len}
use keep_talking_sfu.Proto.Stream.{
  End, finished, failed, Stream, content, Read, got, ended, broken, bad_length, truncated, stuck,
  before, read_pieces, read_exact, read_step, fill_capacity, fill, read_body, be32_of, read_frame,
  with_tag, after_head,
}

-- A stream whose content is all there in one piece.
abbrev pub whole : Bytes → End → Stream
whole bytes e = record { pieces = bytes ∷ []; ending = e }

-- A result with the pieces of the rest forgotten.
abbrev pub seen : {A : Type 0} → Read A → Read A
seen (got a s) = got a (whole (content s) s.ending)
seen ended = ended
seen broken = broken
seen (bad_length n) = bad_length n
seen truncated = truncated
seen stuck = stuck

abbrev pub at_end : {A : Type 0} → Read A → End → Read A
at_end r finished = r
at_end r failed = broken

-- One read takes some bytes off the front, unless there are none.
pub read_some :
    (room : ℕ) (ps : List Bytes)
    → 0 < room
    → ((read_pieces room ps ≡ ([], [])) × (flatten ps ≡ []))
      ⊎ ((chunk : Bytes) × (rest : List Bytes) × (read_pieces room ps ≡ (chunk, rest))
          × (0 < length chunk)
          × (length chunk ≤ room)
          × (flatten ps ≡ chunk ++ flatten rest))
unfolding read_pieces
read_some room [] h = inl (refl, refl)
read_some room ([] ∷ ps) h = read_some room ps h
read_some zero ((b ∷ bs) ∷ ps) h = elim h [ ]
read_some (suc room) ((b ∷ bs) ∷ ps) h = inr (
  b ∷ take room bs,
  drop room bs ∷ ps,
  refl,
  omega arith,
  omega (arith, length-take room bs),
  ap (◌∷◌ b) (
      ap (λ t. t ++ flatten ps) (sym (take-append-drop room bs))
      ∙ append_assoc (take room bs) (drop room bs) (flatten ps)),
)

abbrev pub exact_of : ℕ → Bytes → End → Read Bytes
exact_of n bytes e =
    if ltb (length bytes) n then at_end ended e else got (take n bytes) (whole (drop n bytes) e)

seen-before : (b : ℕ) (r : Read Bytes) → seen (before b r) ≡ before b (seen r)
seen-before b (got bs s) = refl
seen-before b ended = refl
seen-before b broken = refl
seen-before b (bad_length n) = refl
seen-before b truncated = refl
seen-before b stuck = refl

exact_of-before :
    (n b : ℕ) (bytes : Bytes) (e : End)
    → before b (exact_of n bytes e) ≡ exact_of (suc n) (b ∷ bytes) e
exact_of-before n b bytes finished = ground arith
exact_of-before n b bytes failed = ground arith

read_none :
    (n : ℕ) (e : End)
    → seen {A = Bytes} (elim e [ finished ↦ ended | failed ↦ broken ]) ≡ exact_of (suc n) [] e
read_none n finished = ground arith
read_none n failed = ground arith

read_one :
    (ps : List Bytes)
    → ((read_pieces 1 ps ≡ ([], [])) × (flatten ps ≡ []))
      ⊎ ((b : ℕ) × (rest : List Bytes) × (read_pieces 1 ps ≡ (b ∷ [], rest))
          × (flatten ps ≡ b ∷ flatten rest))
unfolding read_pieces
read_one [] = inl (refl, refl)
read_one ([] ∷ ps) = read_one ps
read_one ((b ∷ bs) ∷ ps) = inr (b, bs ∷ ps, refl, refl)

pub read_exact-exact_of :
    (n : ℕ) (ps : List Bytes) (e : End)
    → seen (read_exact n (record { pieces = ps; ending = e })) ≡ exact_of n (flatten ps) e
unfolding read_exact
read_exact-exact_of zero ps e = ground arith
read_exact-exact_of (suc n) ps e = elim (read_one ps) [
  | inl (r, empty) ↦ rw (r, empty, read_exact) (read_none n e)
  | inr (b, rest, r, cut) ↦
      rw (r, ap (λ p. p.1) r, cut, read_exact)
        (seen-before b (read_exact n (record { pieces = rest; ending = e }))
          ∙ ap (before b) (read_exact-exact_of n rest e)
          ∙ exact_of-before n b (flatten rest) e)
]

-- The loop of `read_frame` takes what is missing from `buf`, if the stream has it.
abbrev filled : ℕ → Bytes → Bytes → End → Read Bytes
filled len buf bytes e =
    if ltb (length buf + length bytes) len
    then at_end truncated e
    else got (buf ++ take (len - length buf) bytes) (whole (drop (len - length buf) bytes) e)

filled-append :
    (len : ℕ) (buf chunk bytes : Bytes) (e : End)
    → length buf + length chunk ≤ len
    → filled len (buf ++ chunk) bytes e ≡ filled len buf (chunk ++ bytes) e
filled-append len buf chunk bytes e h =
    let n : ℕ = len - length buf in
    rw
      (
        take-append_add (len - length buf) chunk bytes (omega arith),
        drop-append_add (len - length buf) chunk bytes (omega arith),
      )
      (ground (
        arith,
        length-append buf chunk,
        length-append chunk bytes,
        append_assoc buf chunk (take (len - length buf - length chunk) bytes),
      ))

-- While bytes are missing, a buffer that is not empty of capacity is made to have room, and never
-- grows past the declared length or what it was.
pub fill_capacity_bounds :
    (len size capacity : ℕ)
    → size < len
    → size ≤ capacity
    → 0 < capacity
    → (size < fill_capacity len size capacity)
      × (fill_capacity len size capacity ≤ max capacity len)
unfolding fill_capacity
fill_capacity_bounds len size capacity less roomy pos = ground arith

seen-at_end : (e : End) → seen (at_end {A = Bytes} truncated e) ≡ at_end truncated e
seen-at_end finished = refl
seen-at_end failed = refl

fill-filled :
    (fuel len capacity : ℕ) (buf : Bytes) (ps : List Bytes) (e : End)
    → length buf ≤ len
    → len < length buf + fuel
    → 0 < capacity
    → length buf ≤ capacity
    → seen (fill fuel len capacity buf (record { pieces = ps; ending = e }))
      ≡ filled len buf (flatten ps) e
unfolding fill
fill-filled zero len capacity buf ps e h enough pos roomy = absurd (omega arith)
fill-filled (suc fuel) len capacity buf ps e h enough pos roomy =
    elim (Bool-cases (ltb (length buf) len)) [
      | inl less ↦
          let room : ℕ =
            min (len - length buf) (fill_capacity len (length buf) capacity - length buf) in
          let grows = fill_capacity_bounds len (length buf) capacity (ltb→lt _ _ less) roomy pos in
          elim (read_some room ps (omega (arith, grows.0, ltb→lt _ _ less))) [
            | inl (r, empty) ↦ rw (less, r, empty) (ground (arith, seen-at_end e))
            | inr (chunk, rest, r, some_read, small, cut) ↦
                rw (less, r, lt→ltb 0 (length chunk) some_read, cut)
                  (fill-filled fuel len (fill_capacity len (length buf) capacity) (buf ++ chunk)
                      rest e (omega (arith, length-append buf chunk, ltb→lt _ _ less))
                      (omega (arith, length-append buf chunk)) (omega (arith, grows.0))
                      (omega (arith, length-append buf chunk, grows.0))
                    ∙ filled-append len buf chunk (flatten rest) e (omega (arith, ltb→lt _ _ less)))
          ]
      | inr full ↦ rw full (ground (arith, append-nil buf))
    ]

-- What `read_frame` is to answer: the length prefix and then the frame, from the content alone.
abbrev pub frame_of : Bytes → End → Read (ℕ × Bytes)
frame_of bytes e =
    let len = be32_of (take 4 bytes) in
    if ltb (length bytes) 4
    then at_end ended e
    else if leb 1 len && leb len max_frame_len
    then if ltb (length bytes) (4 + len)
      then at_end truncated e
      else got (get_or bytes 4 0, take (len - 1) (drop 5 bytes)) (whole (drop (4 + len) bytes) e)
    else bad_length len

abbrev body_of_len : ℕ → Bytes → End → Read (ℕ × Bytes)
body_of_len len bytes e =
    if ltb (length bytes) len
    then at_end truncated e
    else got (get_or bytes 0 0, take (len - 1) (drop 1 bytes)) (whole (drop len bytes) e)

seen-with_tag : (r : Read Bytes) → seen (with_tag r) ≡ with_tag (seen r)
seen-with_tag (got [] s) = refl
seen-with_tag (got (b ∷ bs) s) = refl
seen-with_tag ended = refl
seen-with_tag broken = refl
seen-with_tag (bad_length n) = refl
seen-with_tag truncated = refl
seen-with_tag stuck = refl

with_tag-filled :
    (len : ℕ) (bytes : Bytes) (e : End)
    → 0 < len
    → with_tag (filled len [] bytes e) ≡ body_of_len len bytes e
with_tag-filled zero bytes e pos = elim pos [ ]
with_tag-filled (suc len) [] finished pos = ground arith
with_tag-filled (suc len) [] failed pos = ground arith
with_tag-filled (suc len) (b ∷ bytes) finished pos = ground arith
with_tag-filled (suc len) (b ∷ bytes) failed pos = ground arith

read_body-body_of_len :
    (len : ℕ) (ps : List Bytes) (e : End)
    → 0 < len
    → seen (read_body len (record { pieces = ps; ending = e })) ≡ body_of_len len (flatten ps) e
unfolding read_body
read_body-body_of_len len ps e pos =
    seen-with_tag (fill (suc len) len (min len read_step) [] (record { pieces = ps; ending = e }))
    ∙ ap with_tag (
        fill-filled (suc len) len (min len read_step) [] ps e (omega arith) (omega arith)
          (omega arith) (omega arith))
    ∙ with_tag-filled len (flatten ps) e pos

-- `after_head` with the body read off the content.
abbrev after_head_of : Read Bytes → Read (ℕ × Bytes)
after_head_of (got head s) =
    let len = be32_of head in
    if leb 1 len && leb len max_frame_len
    then body_of_len len (content s) s.ending
    else bad_length len
after_head_of ended = ended
after_head_of broken = broken
after_head_of (bad_length n) = bad_length n
after_head_of truncated = truncated
after_head_of stuck = stuck

seen-after_head : (r : Read Bytes) → seen (after_head r) ≡ after_head_of (seen r)
seen-after_head (got head s) =
    rw append-nil (ground (arith, read_body-body_of_len (be32_of head) s.pieces s.ending))
seen-after_head ended = refl
seen-after_head broken = refl
seen-after_head (bad_length n) = refl
seen-after_head truncated = refl
seen-after_head stuck = refl

after_head_of-at_end : (e : End) → after_head_of (at_end ended e) ≡ at_end ended e
after_head_of-at_end finished = refl
after_head_of-at_end failed = refl

after_head_of-exact_of :
    (bytes : Bytes) (e : End) → after_head_of (exact_of 4 bytes e) ≡ frame_of bytes e
after_head_of-exact_of [] e = after_head_of-at_end e
after_head_of-exact_of (a ∷ []) e = after_head_of-at_end e
after_head_of-exact_of (a ∷ b ∷ []) e = after_head_of-at_end e
after_head_of-exact_of (a ∷ b ∷ c ∷ []) e = after_head_of-at_end e
after_head_of-exact_of (a ∷ b ∷ c ∷ d ∷ bytes) e = ground (arith, append-nil bytes)

-- However the network cuts the content of a stream into pieces, `read_frame` answers the same, and
-- leaves the same bytes.
pub read_frame-frame_of : (s : Stream) → seen (read_frame s) ≡ frame_of (content s) s.ending
unfolding read_frame
read_frame-frame_of s =
    seen-after_head (read_exact 4 s)
    ∙ ap after_head_of (read_exact-exact_of 4 s.pieces s.ending)
    ∙ after_head_of-exact_of (content s) s.ending
