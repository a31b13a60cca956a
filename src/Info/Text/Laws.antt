-- ===== src/Info/Text/Laws.antt =====
-- Texts that are put together and searched again.
use keep_talking_sfu.Prelude.{
  ℕ, zero, suc, ◌+◌, ◌*◌, ◌/◌, ◌%◌, ◌^◌, ◌<◌, ◌≤◌, ◌≡◌, ◌≢◌, ◌∙◌, refl, Bool-cases, inl, inr,
  Option, none, some, [], ◌∷◌, ◌++◌, All, length, ltb, ◌==◌, arith, All-append, length-append,
  ltb→lt,
}
use keep_talking_sfu.Prelude.Wire.{Bytes}
use keep_talking_sfu.Info.Text.{
  strip_prefix, after_first, until, decimal_on, decimal, add_digit, read_digits, unsigned,
  parse_u16, space_len, trim_on, trim_start, trim_end, trim,
}

-- None of these bytes is `b`.
abbrev pub Lacks : ℕ → Bytes → Type 0
Lacks b = All (λ c. b ≢ c)

-- A pattern that begins with a byte which a text lacks is not found in it.
pub after_first-Lacks :
    (p : ℕ) (ps text rest : Bytes)
    → Lacks p text
    → after_first (p ∷ ps) (text ++ rest) ≡ after_first (p ∷ ps) rest
unfolding after_first strip_prefix
after_first-Lacks p ps [] rest h = refl
after_first-Lacks p ps (b ∷ text) rest (h, hs) = ground (arith, after_first-Lacks p ps text rest hs)

pub until-Lacks :
    (p : ℕ) (text rest : Bytes) → Lacks p text → until (λ b. b == p) (text ++ p ∷ rest) ≡ text
unfolding until
until-Lacks p [] rest h = ground arith
until-Lacks p (b ∷ text) rest (h, hs) = ground (arith, until-Lacks p text rest hs)

-- A word in quotes is no other word in quotes.
pub strip_prefix_other :
    (q : ℕ) (key text rest : Bytes)
    → Lacks q key
    → Lacks q text
    → text ≢ key
    → strip_prefix (key ++ q ∷ []) (text ++ q ∷ rest) ≡ none
unfolding strip_prefix
strip_prefix_other q [] [] rest hk ht h = absurd (h refl)
strip_prefix_other q [] (b ∷ text) rest hk (ht, hts) h = ground arith
strip_prefix_other q (k ∷ key) [] rest (hk, hks) ht h = ground arith
strip_prefix_other q (k ∷ key) (b ∷ text) rest (hk, hks) (ht, hts) h = elim (Bool-cases (k == b)) [
  | inl e ↦ rw e (strip_prefix_other q key text rest hks hts (λ x. h (ground (arith, x))))
  | inr e ↦ rw e refl
]

read_digits-append :
    (value : Option ℕ) (xs : Bytes) (b : ℕ)
    → read_digits value (xs ++ b ∷ []) ≡ add_digit (read_digits value xs) b
unfolding read_digits
read_digits-append value [] b = refl
read_digits-append value (x ∷ xs) b = read_digits-append (add_digit value x) xs b

-- What as many digits and one can write.
abbrev bound : ℕ → ℕ
bound zero = 10
bound (suc fuel) = 10 * bound fuel

read_digits-decimal_on :
    (fuel n : ℕ) → n < 2 ^ 16 → n < bound fuel → read_digits (some 0) (decimal_on fuel n) ≡ some n
unfolding read_digits decimal_on add_digit
read_digits-decimal_on zero n small few = ground arith
read_digits-decimal_on (suc fuel) n small few = elim (Bool-cases (ltb n 10)) [
  | inl e ↦ rw e (ground arith)
  | inr e ↦
      rw
        (
          e,
          read_digits-append (some 0) (decimal_on fuel (n / 10)) (48 + n % 10),
          read_digits-decimal_on fuel (n / 10) (omega arith) (omega arith),
        )
        (ground arith)
]

abbrev pub IsDigit : ℕ → Type 0
IsDigit b = (48 ≤ b) × (b ≤ 57)

decimal_on-digits :
    (fuel n : ℕ) → All IsDigit (decimal_on fuel n) × (0 < length (decimal_on fuel n))
unfolding decimal_on
decimal_on-digits zero n = ((((omega arith, omega arith)), tt), omega arith)
decimal_on-digits (suc fuel) n = elim (Bool-cases (ltb n 10)) [
  | inl e ↦ rw e (((omega arith, omega (arith, ltb→lt n 10 e)), tt), omega arith)
  | inr e ↦
      let (digits, some_digit) = decimal_on-digits fuel (n / 10) in
      rw e (
        All-append IsDigit (decimal_on fuel (n / 10)) ((48 + n % 10) ∷ []) digits
            ((omega arith, omega arith), tt),
        omega (arith, length-append (decimal_on fuel (n / 10)) ((48 + n % 10) ∷ [])),
      )
]

pub decimal-digits : (n : ℕ) → All IsDigit (decimal n) × (0 < length (decimal n))
unfolding decimal
decimal-digits n = decimal_on-digits 20 n

unsigned-digits : (text : Bytes) → 0 < length text → unsigned text ≡ read_digits (some 0) text
unfolding unsigned
unsigned-digits [] h = elim h [ ]
unsigned-digits (b ∷ bs) h = refl

parse_digits :
    (text : Bytes) → All IsDigit text → 0 < length text → parse_u16 text ≡ read_digits (some 0) text
unfolding parse_u16
parse_digits [] digits h = elim h [ ]
parse_digits (b ∷ bs) ((lo, hi), hs) h = ground (arith, unsigned-digits (b ∷ bs) h)

-- A port is read back from its decimal digits.
pub parse_u16-decimal : (n : ℕ) → n < 2 ^ 16 → parse_u16 (decimal n) ≡ some n
unfolding decimal
parse_u16-decimal n h =
    let (digits, some_digit) = decimal-digits n in
    parse_digits (decimal n) digits some_digit ∙ read_digits-decimal_on 20 n h (omega arith)

-- An ASCII character that is no white space.
abbrev pub IsPlain : ℕ → Type 0
IsPlain b = (b < 128) × (32 < b)

pub space_len_plain : (b : ℕ) (bs : Bytes) → IsPlain b → space_len (b ∷ bs) ≡ 0
unfolding space_len
space_len_plain b [] h = ground arith
space_len_plain b (c ∷ []) h = ground arith
space_len_plain b (c ∷ d ∷ bs) h = ground arith

trim_on_none : (fuel : ℕ) (text : Bytes) → space_len text ≡ 0 → trim_on fuel text ≡ text
unfolding trim_on
trim_on_none zero text h = refl
trim_on_none (suc fuel) text h = rw h refl

pub trim_start_plain : (b : ℕ) (bs : Bytes) → IsPlain b → trim_start (b ∷ bs) ≡ b ∷ bs
unfolding trim_start
trim_start_plain b bs h = trim_on_none (length (b ∷ bs)) (b ∷ bs) (space_len_plain b bs h)

trim_end_plain : (text : Bytes) → All IsPlain text → trim_end text ≡ text
unfolding trim_end
trim_end_plain [] h = refl
trim_end_plain (b ∷ bs) (h, hs) = rw (trim_start_plain b bs h, trim_end_plain bs hs) (ground arith)

trim_start-plain : (text : Bytes) → All IsPlain text → trim_start text ≡ text
unfolding trim_start trim_on
trim_start-plain [] h = refl
trim_start-plain (b ∷ bs) (h, hs) = trim_start_plain b bs h

pub trim_plain : (text : Bytes) → All IsPlain text → trim text ≡ text
unfolding trim
trim_plain text h = rw (trim_start-plain text h) (trim_end_plain text h)
