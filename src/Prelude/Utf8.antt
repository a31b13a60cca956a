-- ===== src/Prelude/Utf8.antt =====
-- `String::from_utf8_lossy`: UTF-8 by a byte-wise automaton. A maximal invalid piece becomes
-- U+FFFD, and the byte that broke it is read again as the start of the next character.
use package.keep_talking_sfu.Prelude.Lists.{All}
use Prim.Native.Nat.{ℕ, zero, suc, ◌+◌, ◌/◌, ◌%◌, ◌<◌, ◌≤◌}
use mathlib.Core.Path.{◌≡◌, refl, ap, ◌∙◌}
use mathlib.Core.Logic.{◌⊎◌}
use mathlib.Core.Bool.{Bool, ◌&&◌}
use mathlib.Core.List.{List, [], ◌∷◌, ◌++◌}
use native.Mathlib.Omega.{arith}
use package.keep_talking_sfu.Prelude.Tests.{ltb, leb, ◌==◌, if◌then◌else◌}
use package.keep_talking_sfu.Prelude.Wire.{Bytes}

-- `start` is a character boundary. In `inside pending lo hi more` the bytes `pending` await a
-- continuation byte from `lo` to `hi`, and then `more` plain ones.
pub data State : Type 0 where
  start : State
  inside : Bytes → ℕ → ℕ → ℕ → State

abbrev pub replacement : Bytes
replacement = 0xEF ∷ 0xBF ∷ 0xBD ∷ []

abbrev within : ℕ → ℕ → ℕ → Bool
within lo hi b = leb lo b && leb b hi

unfoldable pub begin : ℕ → Bytes × State
begin b =
    if ltb b 0x80
    then (b ∷ [], start)
    else if within 0xC2 0xDF b
    then ([], inside (b ∷ []) 0x80 0xBF 0)
    else if b == 0xE0
    then ([], inside (b ∷ []) 0xA0 0xBF 1)
    else if b == 0xED
    then ([], inside (b ∷ []) 0x80 0x9F 1)
    else if within 0xE1 0xEF b
    then ([], inside (b ∷ []) 0x80 0xBF 1)
    else if b == 0xF0
    then ([], inside (b ∷ []) 0x90 0xBF 2)
    else if within 0xF1 0xF3 b
    then ([], inside (b ∷ []) 0x80 0xBF 2)
    else if b == 0xF4
    then ([], inside (b ∷ []) 0x80 0x8F 2)
    else (replacement, start)

unfoldable pub advance : ℕ → Bytes → Bytes × State
advance zero piece = (piece, start)
advance (suc more) piece = ([], inside piece 0x80 0xBF more)

unfoldable pub utf8_step : State → ℕ → Bytes × State
unfolding begin advance
utf8_step start b = begin b
utf8_step (inside pending lo hi more) b =
    if within lo hi b
    then advance more (pending ++ b ∷ [])
    else (let (out, next) = begin b in (replacement ++ out, next))

unfoldable pub lossy : State → Bytes → Bytes
unfolding utf8_step
lossy start [] = []
lossy (inside pending lo hi more) [] = replacement
lossy state (b ∷ bytes) = let (out, next) = utf8_step state b in out ++ lossy next bytes

unfoldable pub from_utf8_lossy : Bytes → Bytes
unfolding lossy
from_utf8_lossy bytes = lossy start bytes

-- The encoding of one code point.
unfoldable pub utf8_char : ℕ → Bytes
utf8_char c =
    if ltb c 0x80
    then c ∷ []
    else if ltb c 0x800
    then (0xC0 + c / 64) ∷ (0x80 + c % 64) ∷ []
    else if ltb c 0x10000
    then (0xE0 + c / 4096) ∷ (0x80 + c / 64 % 64) ∷ (0x80 + c % 64) ∷ []
    else (0xF0 + c / 262144) ∷ (0x80 + c / 4096 % 64) ∷ (0x80 + c / 64 % 64) ∷ (0x80 + c % 64) ∷ []

abbrev pub IsScalar : ℕ → Type 0
IsScalar c = (c < 0xD800) ⊎ ((0xE000 ≤ c) × (c < 0x110000))

unfoldable pub utf8_text : List ℕ → Bytes
utf8_text [] = []
utf8_text (c ∷ cs) = utf8_char c ++ utf8_text cs

lossy-utf8_char :
    (c : ℕ) (rest : Bytes)
    → IsScalar c
    → lossy start (utf8_char c ++ rest) ≡ utf8_char c ++ lossy start rest
unfolding lossy utf8_char
lossy-utf8_char c rest h = ground arith

-- The bytes of a `String`: an encoded list of Unicode scalar values.
abbrev pub IsString : Bytes → Type 0
IsString bytes = (cs : List ℕ) × All IsScalar cs × (bytes ≡ utf8_text cs)

lossy-utf8_text : (cs : List ℕ) → All IsScalar cs → lossy start (utf8_text cs) ≡ utf8_text cs
unfolding utf8_text
lossy-utf8_text [] h = unfold lossy in refl
lossy-utf8_text (c ∷ cs) h =
    lossy-utf8_char c (utf8_text cs) h.0 ∙ ap (λ t. utf8_char c ++ t) (lossy-utf8_text cs h.1)

-- A `String` passes unchanged.
pub from_utf8_lossy-IsString : (bytes : Bytes) → IsString bytes → from_utf8_lossy bytes ≡ bytes
unfolding from_utf8_lossy
from_utf8_lossy-IsString bytes (cs, scalars, e) = rw e (lossy-utf8_text cs scalars)

cut_character :
    from_utf8_lossy (0x41 ∷ 0xE2 ∷ 0x82 ∷ 0x42 ∷ []) ≡ 0x41 ∷ 0xEF ∷ 0xBF ∷ 0xBD ∷ 0x42 ∷ []
unfolding from_utf8_lossy
cut_character = refl
