-- ===== src/Proto/Stream/Progress.antt =====
-- Each frame that is read takes bytes off the stream.
use keep_talking_sfu.Prelude.{
  ℕ, ◌+◌, ◌<◌, sym, subst, length, take, drop, arith, append-nil, length-drop,
}
use keep_talking_sfu.Prelude.Wire.{Bytes}
use keep_talking_sfu.Proto.Stream.{
  End, finished, failed, Stream, content, Read, got, ended, broken, bad_length, truncated, stuck,
  be32_of, read_frame,
}
use keep_talking_sfu.Proto.Stream.Reassembly.{seen, frame_of, read_frame-frame_of}

-- The content gets shorter with each frame, and the reader always answers.
abbrev pub Shrinks : ℕ → Read (ℕ × Bytes) → Type 0
Shrinks n (got p s) = length (content s) < n
Shrinks n stuck = ⊥
Shrinks n _ = Unit {0}

frame_of-Shrinks : (bytes : Bytes) (e : End) → Shrinks (length bytes) (frame_of bytes e)
frame_of-Shrinks bytes finished = ground (
  arith,
  append-nil (drop (4 + be32_of (take 4 bytes)) bytes),
  length-drop (4 + be32_of (take 4 bytes)) bytes,
)
frame_of-Shrinks bytes failed = ground (
  arith,
  append-nil (drop (4 + be32_of (take 4 bytes)) bytes),
  length-drop (4 + be32_of (take 4 bytes)) bytes,
)

seen-Shrinks : (n : ℕ) (r : Read (ℕ × Bytes)) → Shrinks n (seen r) → Shrinks n r
seen-Shrinks n (got p s) h = subst (λ b. length b < n) (append-nil (content s)) h
seen-Shrinks n ended h = tt
seen-Shrinks n broken h = tt
seen-Shrinks n (bad_length k) h = tt
seen-Shrinks n truncated h = tt
seen-Shrinks n stuck h = h

pub read_frame-Shrinks : (s : Stream) → Shrinks (length (content s)) (read_frame s)
read_frame-Shrinks s = seen-Shrinks (length (content s)) (read_frame s) (
    subst (Shrinks (length (content s))) (sym (read_frame-frame_of s))
      (frame_of-Shrinks (content s) s.ending))
