-- ===== src/Info/Text.antt =====
-- What src/info.rs uses of `str`, on the bytes of a text in UTF-8.
pub mod Laws
use keep_talking_sfu.Prelude.{
  ℕ, zero, suc, ◌+◌, ◌-◌, ◌*◌, ◌/◌, ◌%◌, ◌^◌, Bool, true, false, not, Option, none, some, List, [],
  ◌∷◌, ◌++◌, length, drop, ltb, leb, ◌==◌, ◌&&◌, if◌then◌else◌,
}
use keep_talking_sfu.Prelude.Wire.{Bytes}

-- `==` on texts.
unfoldable pub eq : Bytes → Bytes → Bool
eq [] [] = true
eq [] (c ∷ cs) = false
eq (b ∷ bs) [] = false
eq (b ∷ bs) (c ∷ cs) = if b == c then eq bs cs else false

-- `strip_prefix`
unfoldable pub strip_prefix : Bytes → Bytes → Option Bytes
strip_prefix [] text = some text
strip_prefix (p ∷ ps) [] = none
strip_prefix (p ∷ ps) (b ∷ bs) = if p == b then strip_prefix ps bs else none

abbrev pub or_else : Option Bytes → Option Bytes → Option Bytes
or_else (some a) later = some a
or_else none later = later

-- `&text[text.find(pattern)? + pattern.len()..]`: what follows the first occurrence.
unfoldable pub after_first : Bytes → Bytes → Option Bytes
after_first pattern [] = strip_prefix pattern []
after_first pattern (b ∷ bs) = or_else (strip_prefix pattern (b ∷ bs)) (after_first pattern bs)

-- `text.split(..).next()`: up to the first byte of the set.
unfoldable pub until : (ℕ → Bool) → Bytes → Bytes
until stop [] = []
until stop (b ∷ bs) = if stop b then [] else b ∷ until stop bs

-- How many bytes the white space character at the front of a text has, 0 where there is none.
unfoldable pub space_len : Bytes → ℕ
space_len [] = 0
space_len (a ∷ []) = if (leb 9 a && leb a 13) then 1 else if a == 32 then 1 else 0
space_len (a ∷ b ∷ []) =
    if (leb 9 a && leb a 13)
    then 1
    else if a == 32
    then 1
    else if a == 0xC2
    then (if b == 0x85 then 2 else if b == 0xA0 then 2 else 0)
    else 0
space_len (a ∷ b ∷ c ∷ _) =
    if (leb 9 a && leb a 13)
    then 1
    else if a == 32
    then 1
    else if a == 0xC2
    then (if b == 0x85 then 2 else if b == 0xA0 then 2 else 0)
    else if a == 0xE1
    then (if b == 0x9A && c == 0x80 then 3 else 0)
    else if a == 0xE2
    then (if b == 0x80
        then if (leb 0x80 c && leb c 0x8A)
          then 3
          else if c == 0xA8
          then 3
          else if c == 0xA9
          then 3
          else if c == 0xAF
          then 3
          else 0
        else if b == 0x81 && c == 0x9F
        then 3
        else 0)
    else if a == 0xE3
    then (if b == 0x80 && c == 0x80 then 3 else 0)
    else 0

-- A character a turn, on fuel.
unfoldable pub trim_on : ℕ → Bytes → Bytes
trim_on zero text = text
trim_on (suc fuel) text =
    let n = space_len text in let rest = trim_on fuel (drop n text) in if n == 0 then text else rest

unfoldable pub trim_start : Bytes → Bytes
trim_start text = trim_on (length text) text

-- What is left when the white space behind it is gone.
unfoldable pub trim_end : Bytes → Bytes
trim_end [] = []
trim_end (b ∷ bs) =
    let rest = trim_end bs in if length (trim_start (b ∷ bs)) == 0 then [] else b ∷ rest

unfoldable pub trim : Bytes → Bytes
trim text = trim_end (trim_start text)

-- The first word of a text and what follows it, for `split_whitespace`.
unfoldable pub word : Bytes → Bytes × Bytes
word [] = ([], [])
word (b ∷ bs) =
    let (w, rest) = word bs in if space_len (b ∷ bs) == 0 then (b ∷ w, rest) else ([], b ∷ bs)

unfoldable pub next_word : Bytes → Bytes × Bytes
next_word text = word (trim_start text)

-- A line's last carriage return.
unfoldable pub strip_cr : Bytes → Bytes
strip_cr [] = []
strip_cr (b ∷ []) = if b == 13 then [] else b ∷ []
strip_cr (b ∷ c ∷ bs) = b ∷ strip_cr (c ∷ bs)

-- `text.lines().next().unwrap_or_default()`
unfoldable pub has_line_end : Bytes → Bool
has_line_end [] = false
has_line_end (b ∷ bs) = let rest = has_line_end bs in if b == 10 then true else rest

unfoldable pub first_line : Bytes → Bytes
first_line text =
    let line = until (λ b. b == 10) text in if has_line_end text then strip_cr line else line

-- `to_string` of a number, on fuel for its digits.
unfoldable pub decimal_on : ℕ → ℕ → Bytes
decimal_on zero n = (48 + n % 10) ∷ []
decimal_on (suc fuel) n =
    let more = decimal_on fuel (n / 10) in
    if ltb n 10 then (48 + n) ∷ [] else more ++ (48 + n % 10) ∷ []

-- Twenty digits are enough for 64 bits.
unfoldable pub decimal : ℕ → Bytes
decimal n = decimal_on 20 n

-- `u16::from_str`: a digit more, unless it is none or the value passes 16 bits.
unfoldable pub add_digit : Option ℕ → ℕ → Option ℕ
add_digit none b = none
add_digit (some n) b =
    if leb 48 b && leb b 57
    then if ltb (n * 10 + (b - 48)) (2 ^ 16) then some (n * 10 + (b - 48)) else none
    else none

unfoldable pub read_digits : Option ℕ → Bytes → Option ℕ
read_digits value [] = value
read_digits value (b ∷ bs) = read_digits (add_digit value b) bs

unfoldable pub unsigned : Bytes → Option ℕ
unsigned [] = none
unsigned (b ∷ bs) = read_digits (some 0) (b ∷ bs)

-- One plus sign may come first.
unfoldable pub parse_u16 : Bytes → Option ℕ
parse_u16 [] = none
parse_u16 (b ∷ bs) = if b == 43 then unsigned bs else unsigned (b ∷ bs)
