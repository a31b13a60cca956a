-- ===== src/Tests/Line.antt =====
-- A connection whose streams take three bytes with each write and never fail.
use keep_talking_sfu.Prelude.{
  ℕ, suc, ◌<◌, ◌≡◌, ◌∙◌, refl, sym, ap, true, false, some, List, [], ◌∷◌, ◌++◌, length, flatten,
  take, drop, ◌==◌, if◌then◌else◌, arith, append-nil, take-append-drop, length-drop,
}
use keep_talking_sfu.Prelude.Wire.{Bytes}
use keep_talking_sfu.Transport.{Transport, IsTransport, took, opened, Took}

pub record Line : Type 0 where
  pub next : ℕ
  pub at : ℕ → Bytes

abbrev pub put : ℕ → Bytes → Line → Line
put i bytes c = record c { at = λ j. if i == j then c.at j ++ bytes else c.at j }

-- A new stream.
abbrev pub add : Line → Line
add c = record { next = suc c.next; at = λ j. if c.next == j then [] else c.at j }

instance abbrev pub line : Transport Line
line = record {
  write_many_chunks =
      λ i chunks c. (put i (take 3 (flatten chunks)) c, took (drop 3 (flatten chunks) ∷ []));
  write_all_chunks = λ i chunks c. (put i (flatten chunks) c, true);
  open_uni = λ c. (add c, opened c.next);
  wait_uni = λ c. (add c, some c.next);
  set_priority = λ i n c. c;
  finish = λ i c. (c, true);
  reset = λ i code c. c;
  stopped = λ i c. (c, true);
  send_datagram = λ bytes c. (c, true);
  close = λ code text c. c;
  is_closed = λ c. false;
  sent = λ i c. c.at i;
}

put_at : (i : ℕ) (bytes : Bytes) (c : Line) → (put i bytes c).at i ≡ c.at i ++ bytes
put_at i bytes c = ground arith

add_at : (c : Line) → (add c).at c.next ≡ []
add_at c = ground arith

write-Took :
    (i : ℕ) (chunks : List Bytes) (c : Line)
    → 0 < length (flatten chunks)
    → Took i chunks c (line.write_many_chunks i chunks c)
write-Took i chunks c h =
    let bytes = flatten chunks in
    let rest = append-nil (drop 3 bytes) in
    (
      take 3 bytes,
      sym (take-append-drop 3 bytes) ∙ ap (λ b. take 3 bytes ++ b) (sym rest),
      put_at i (take 3 bytes) c,
      omega (arith, ap length rest, length-drop 3 bytes),
    )

pub line_laws : IsTransport Line
line_laws = record {
  write_many = write-Took;
  write_all = λ i chunks c. put_at i (flatten chunks) c;
  opens = add_at;
  opens_some = add_at;
  same_priority = λ i j n c. refl;
  same_finish = λ i j c. refl;
}

-- A stream is open, with number 0 and nothing on it.
abbrev pub fresh : Line
fresh = record { next = 1; at = λ j. [] }
