-- ===== src/Info/Document/RoundTrip.antt =====
-- The info document that the SFU writes is read back.
use keep_talking_sfu.Prelude.{
  ℕ, ◌^◌, ◌<◌, ◌≡◌, ◌≢◌, ◌∙◌, refl, ap, Bool, true, false, Option, none, some, [], ◌∷◌, ◌++◌, All,
  length, ◌==◌, if◌then◌else◌, arith,
}
use keep_talking_sfu.Prelude.Outcome.{ok}
use keep_talking_sfu.Prelude.Wire.{Bytes, ascii}
use keep_talking_sfu.Info.Text.{
  eq, strip_prefix, after_first, until, space_len, trim_on, trim_start, trim_end, trim, decimal,
}
use keep_talking_sfu.Info.Text.Laws.{
  Lacks, after_first-Lacks, until-Lacks, strip_prefix_other, IsDigit, IsPlain, decimal-digits,
  parse_u16-decimal, trim_start_plain, trim_plain,
}
use keep_talking_sfu.Info.Document.{
  sfu_alpn, null, port_text, sfu_info_json, quote, is_delimiter, behind_key, json_field, port_of,
  parse,
}

-- A value in quotes that a key is not.
abbrev pub IsValue : Bytes → Type 0
IsValue text =
    Lacks quote text × (text ≢ ascii "relay") × (text ≢ ascii "alpn") × (text ≢ ascii "qad_port")

abbrev pub lacks_test : ℕ → Bytes → Bool
lacks_test b [] = true
lacks_test b (c ∷ text) = let rest = lacks_test b text in if b == c then false else rest

-- A quoted key is not found at a quoted value that is another word, nor in it.
skip_value :
    (key text rest : Bytes)
    → Lacks quote key
    → Lacks quote text
    → text ≢ key
    → after_first (quote ∷ (key ++ quote ∷ [])) (quote ∷ (text ++ quote ∷ rest))
      ≡ after_first (quote ∷ (key ++ quote ∷ [])) (quote ∷ rest)
unfolding after_first strip_prefix
skip_value key text rest hk ht other =
    rw (strip_prefix_other quote key text rest hk ht other)
      (after_first-Lacks quote (key ++ quote ∷ []) text (quote ∷ rest) ht)

behind_quoted :
    (text rest : Bytes)
    → Lacks quote text
    → behind_key (some (58 ∷ quote ∷ (text ++ quote ∷ rest))) ≡ some text
unfolding strip_prefix
behind_quoted text rest h =
    rw
      (
        trim_start_plain 58 (quote ∷ (text ++ quote ∷ rest)) (omega arith, omega arith),
        trim_start_plain quote (text ++ quote ∷ rest) (omega arith, omega arith),
        until-Lacks quote text rest h,
      )
      refl

-- The test whether a text lacks a byte.
pub lacks : (b : ℕ) (text : Bytes) → lacks_test b text ≡ true → Lacks b text
lacks b [] h = tt
lacks b (c ∷ text) h = (ground arith, lacks b text (ground arith))

field_sfu :
    (sfu rest : Bytes)
    → Lacks quote sfu
    → json_field (ascii "{\"sfu\":\"" ++ (sfu ++ quote ∷ rest)) (ascii "sfu") ≡ some sfu
unfolding json_field after_first strip_prefix
field_sfu sfu rest h = behind_quoted sfu rest h

field_relay :
    (sfu relay rest : Bytes)
    → IsValue sfu
    → Lacks quote relay
    → json_field
        (ascii "{\"sfu\":\"" ++ (sfu ++ (ascii "\",\"relay\":\"" ++ (relay ++ quote ∷ rest))))
        (ascii "relay")
      ≡ some relay
unfolding json_field after_first strip_prefix
field_relay sfu relay rest (h, o, _, _) hr =
    ap behind_key (
      skip_value (ascii "relay") sfu (ascii ",\"relay\":\"" ++ (relay ++ quote ∷ rest))
        (lacks quote (ascii "relay") refl) h o)
    ∙ behind_quoted relay rest hr

field_alpn :
    (sfu relay alpn rest : Bytes)
    → IsValue sfu
    → IsValue relay
    → Lacks quote alpn
    → json_field
        (ascii "{\"sfu\":\""
          ++ (sfu
              ++ (ascii "\",\"relay\":\""
                  ++ (relay ++ (ascii "\",\"alpn\":\"" ++ (alpn ++ quote ∷ rest))))))
        (ascii "alpn")
      ≡ some alpn
unfolding json_field after_first strip_prefix
field_alpn sfu relay alpn rest (h, _, o, _) (hr, _, o', _) ha =
    let behind = ascii ",\"alpn\":\"" ++ (alpn ++ quote ∷ rest) in
    let key = lacks quote (ascii "alpn") refl in
    ap behind_key (
      skip_value (ascii "alpn") sfu (ascii ",\"relay\":\"" ++ (relay ++ quote ∷ behind)) key h o
      ∙ skip_value (ascii "alpn") relay behind key hr o')
    ∙ behind_quoted alpn rest ha

other : (a b : ℕ) → a ≢ b → (a == b) ≡ false
other a b h = ground arith

behind_bare :
    (text : Bytes)
    → All IsPlain text
    → until is_delimiter (text ++ ascii "}") ≡ text
    → 0 < length text
    → Lacks quote text
    → behind_key (some (58 ∷ (text ++ ascii "}"))) ≡ some text
unfolding strip_prefix
behind_bare [] plain stops some_text h = elim some_text [ ]
behind_bare (b ∷ bs) (p, ps) stops some_text (h, hs) =
    rw
      (
        trim_start_plain 58 (b ∷ (bs ++ ascii "}")) (omega arith, omega arith),
        trim_start_plain b (bs ++ ascii "}") p,
        other quote b h,
        stops,
        trim_plain (b ∷ bs) (p, ps),
      )
      refl

field_qad_port :
    (sfu relay text : Bytes)
    → IsValue sfu
    → IsValue relay
    → behind_key (some (58 ∷ (text ++ ascii "}"))) ≡ some text
    → json_field
        (ascii "{\"sfu\":\""
          ++ (sfu
              ++ (ascii "\",\"relay\":\""
                  ++ (relay
                      ++ (ascii "\",\"alpn\":\""
                          ++ (sfu_alpn ++ (ascii "\",\"qad_port\":" ++ (text ++ ascii "}"))))))))
        (ascii "qad_port")
      ≡ some text
unfolding json_field after_first strip_prefix
field_qad_port sfu relay text (h, _, _, o) (hr, _, _, o') value =
    let behind =
      ascii ",\"alpn\":\"" ++ (sfu_alpn ++ (ascii "\",\"qad_port\":" ++ (text ++ ascii "}"))) in
    let key = lacks quote (ascii "qad_port") refl in
    ap behind_key (
      skip_value (ascii "qad_port") sfu (ascii ",\"relay\":\"" ++ (relay ++ quote ∷ behind)) key h o
      ∙ skip_value (ascii "qad_port") relay behind key hr o')
    ∙ value

until-digits : (text : Bytes) → All IsDigit text → until is_delimiter (text ++ ascii "}") ≡ text
unfolding until
until-digits [] h = refl
until-digits (b ∷ bs) ((lo, hi), hs) = rw (until-digits bs hs) (ground arith)

digits-IsPlain : (text : Bytes) → All IsDigit text → All IsPlain text × Lacks quote text
digits-IsPlain [] h = (tt, tt)
digits-IsPlain (b ∷ bs) ((lo, hi), hs) =
    let (plain, lacking) = digits-IsPlain bs hs in
    (((omega arith, omega arith), plain), ((λ e. absurd (omega (arith, e))), lacking))

behind_null : behind_key (some (58 ∷ (null ++ ascii "}"))) ≡ some null
unfolding strip_prefix trim_start trim_on space_len trim trim_end until
behind_null = refl

behind_port :
    (qad_port : Option ℕ)
    → behind_key (some (58 ∷ (port_text qad_port ++ ascii "}"))) ≡ some (port_text qad_port)
behind_port none = behind_null
behind_port (some port) =
    let (digits, some_digit) = decimal-digits port in
    let (plain, lacking) = digits-IsPlain (decimal port) digits in
    behind_bare (decimal port) plain (until-digits (decimal port) digits) some_digit lacking

-- A port of 16 bits, if there is one.
abbrev pub IsPort : Option ℕ → Type 0
IsPort none = Unit {0}
IsPort (some port) = port < 2 ^ 16

digits_null : (text : Bytes) → All IsDigit text → eq text null ≡ false
unfolding eq
digits_null [] h = refl
digits_null (b ∷ bs) ((lo, hi), hs) = ground arith

port_of-port_text :
    (qad_port : Option ℕ) → IsPort qad_port → port_of (some (port_text qad_port)) ≡ ok qad_port
unfolding eq
port_of-port_text none h = refl
port_of-port_text (some port) h =
    rw (digits_null (decimal port) ((decimal-digits port).0), parse_u16-decimal port h) refl

module _ {EndpointId RelayUrl : Type 0} (parse_id : Bytes → Option EndpointId)
    (parse_url : Bytes → Option RelayUrl) where
  -- `SfuInfo::parse` reads back what `sfu_info_json` writes: the id and the URL that the given texts
  -- stand for, this build's ALPN, and the port or its absence. The texts have no quote and are none
  -- of the document's other keys, and a port has 16 bits.
  pub parse-sfu_info_json :
      (sfu relay : Bytes) (qad_port : Option ℕ) (id : EndpointId) (url : RelayUrl)
      → IsValue sfu
      → IsValue relay
      → IsPort qad_port
      → parse_id sfu ≡ some id
      → parse_url relay ≡ some url
      → parse parse_id parse_url (sfu_info_json sfu relay qad_port)
        ≡ ok (record { sfu = id; relay = url; alpn = sfu_alpn; qad_port = qad_port })
  unfolding parse sfu_info_json
  parse-sfu_info_json sfu relay qad_port id url hs hr hp pi pu =
      rw
        (
          field_sfu sfu _ (hs.0),
          field_relay sfu relay _ hs (hr.0),
          field_alpn sfu relay sfu_alpn _ hs hr (lacks quote sfu_alpn refl),
          field_qad_port sfu relay (port_text qad_port) hs hr (behind_port qad_port),
          port_of-port_text qad_port hp,
          pi,
          pu,
        )
        refl
