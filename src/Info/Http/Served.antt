-- ===== src/Info/Http/Served.antt =====
-- What a request to `serve` is answered, and what `fetch_info` makes of the answer.
use keep_talking_sfu.Prelude.{
  ℕ, zero, suc, ◌+◌, ◌-◌, ◌<◌, ◌≤◌, ◌≡◌, ◌⊎◌, refl, sym, true, false, Bool-cases, inl, inr, List,
  [], ◌++◌, length, flatten, ltb, ◌==◌, if◌then◌else◌, arith, append_assoc, append-nil,
  length-append, ltb→lt, subst,
}
use keep_talking_sfu.Prelude.Wire.{Bytes}
use keep_talking_sfu.Proto.Stream.{Stream, End, finished, failed, content}
use keep_talking_sfu.Proto.Stream.Reassembly.{read_some}
use keep_talking_sfu.Info.Text.{after_first, strip_prefix}
use keep_talking_sfu.Info.Http.{
  Head, taken, io_error, out_of_fuel, blank, is_some, buffer_len, read_head,
}

-- What reading a head from these bytes, with this end, comes to. The head is a front of them that
-- fits the buffer, and it has a blank line, or it has none and fills the buffer or is all of them on a
-- stream that ended cleanly. The error is the stream's, after less than a buffer without a blank line.
abbrev pub IsHead : Bytes → End → Head → Type 0
IsHead bytes e (taken buf) =
    (length buf ≤ buffer_len)
    × ((rest : Bytes) × (bytes ≡ buf ++ rest))
    × ((is_some (after_first blank buf) ≡ true)
        ⊎ ((is_some (after_first blank buf) ≡ false)
            × ((length buf ≡ buffer_len) ⊎ ((e ≡ finished) × (buf ≡ bytes)))))
IsHead bytes e io_error =
    (e ≡ failed) × (length bytes < buffer_len) × (is_some (after_first blank bytes) ≡ false)
IsHead bytes e out_of_fuel = ⊥

not_empty : (chunk : Bytes) → 0 < length chunk → (length chunk == 0) ≡ false
not_empty chunk h = ground arith

at_end-IsHead :
    (buf : Bytes) (e : End)
    → length buf < buffer_len
    → is_some (after_first blank buf) ≡ false
    → IsHead (buf ++ []) e (elim e [ finished ↦ taken buf | failed ↦ io_error ])
at_end-IsHead buf finished small part =
    (omega arith, ([], refl), inr (part, inr (refl, sym (append-nil buf))))
at_end-IsHead buf failed small part =
    subst (λ b. IsHead b failed io_error) (sym (append-nil buf)) (refl, small, part)

read_head-IsHead :
    (fuel : ℕ) (buf : Bytes) (ps : List Bytes) (e : End)
    → length buf ≤ buffer_len
    → is_some (after_first blank buf) ≡ false
    → buffer_len < length buf + fuel
    → IsHead (buf ++ flatten ps) e (read_head fuel buf (record { pieces = ps; ending = e }))
unfolding read_head
read_head-IsHead zero buf ps e small part enough = absurd (omega arith)
read_head-IsHead (suc fuel) buf ps e small part enough =
    elim (Bool-cases (ltb (length buf) buffer_len)) [
      | inl less ↦ elim (read_some (buffer_len - length buf) ps (omega (arith, ltb→lt _ _ less))) [
        | inl (r, empty) ↦ rw (less, r, empty) (at_end-IsHead buf e (ltb→lt _ _ less) part)
        | inr (chunk, rest, r, some_read, few, cut) ↦
            let filled = buf ++ chunk in
            let sizes = length-append buf chunk in
            let fits : length filled ≤ buffer_len = omega (arith, sizes, ltb→lt _ _ less) in
            rw (less, r, not_empty chunk some_read, cut)
              (subst
                (λ b. IsHead b e (
                  if is_some (after_first blank filled)
                  then taken filled
                  else read_head fuel filled (record { pieces = rest; ending = e })))
                (append_assoc buf chunk (flatten rest))
                (elim (Bool-cases (is_some (after_first blank filled))) [
                  | inl whole ↦ rw whole (fits, (flatten rest, refl), inl whole)
                  | inr still ↦
                      rw still
                        (read_head-IsHead fuel filled rest e fits still (omega (arith, sizes)))
                ]))
      ]
      | inr full ↦ rw full (small, (flatten ps, refl), inr (part, inl (ground (arith, full))))
    ]

-- Whatever a client sends, in whatever pieces, reading its request head comes to an end. It gives a
-- front of the bytes that fits the buffer of 4 KiB, and that has a blank line, or has none and fills the
-- buffer or is all that was sent on a stream that ended cleanly; or it gives an error, only if the stream failed after
-- less than a buffer without a blank line.
pub read_head_ends : (s : Stream) → IsHead (content s) s.ending (read_head (suc buffer_len) [] s)
unfolding after_first strip_prefix
read_head_ends s =
    read_head-IsHead (suc buffer_len) [] s.pieces s.ending (omega arith) refl (omega arith)
