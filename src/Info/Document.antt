-- ===== src/Info/Document.antt =====
-- src/info.rs, `sfu_info_json`, `SfuInfo::parse` and `json_field`: the info document. The ids and the
-- relay's URL are read by the libraries that define them.
pub mod RoundTrip
use keep_talking_sfu.Prelude.{
  ℕ, Bool, true, false, Option, none, some, List, [], ◌∷◌, ◌++◌, ◌==◌, if◌then◌else◌,
}
use keep_talking_sfu.Prelude.Outcome.{Outcome, ok, err, ◌>>=◌}
use keep_talking_sfu.Prelude.Wire.{Bytes, ascii}
use keep_talking_sfu.Info.Text.{
  eq, strip_prefix, after_first, until, trim_start, trim, decimal, parse_u16,
}

-- `SFU_ALPN`
abbrev pub sfu_alpn : Bytes
sfu_alpn = ascii "keeptalking/sfu/2"

abbrev pub null : Bytes
null = ascii "null"

abbrev pub port_text : Option ℕ → Bytes
port_text none = null
port_text (some port) = decimal port

unfoldable pub sfu_info_json : Bytes → Bytes → Option ℕ → Bytes
sfu_info_json sfu relay qad_port =
    ascii "{\"sfu\":\""
    ++ (sfu
        ++ (ascii "\",\"relay\":\""
            ++ (relay
                ++ (ascii "\",\"alpn\":\""
                    ++ (sfu_alpn
                        ++ (ascii "\",\"qad_port\":" ++ (port_text qad_port ++ ascii "}")))))))

pub record SfuInfo (EndpointId RelayUrl : Type 0) : Type 0 where
  pub sfu : EndpointId
  pub relay : RelayUrl
  pub alpn : Bytes
  pub qad_port : Option ℕ

pub data InfoError : Type 0 where
  no_sfu no_relay no_alpn bad_qad_port bad_sfu bad_relay : InfoError

abbrev pub quote : ℕ
quote = 34

-- `[',', '}']`
abbrev pub is_delimiter : ℕ → Bool
is_delimiter b = if b == 44 then true else b == 125

abbrev pub quoted_or_bare : Bytes → Option Bytes → Bytes
quoted_or_bare rest (some quoted) = until (λ b. b == quote) quoted
quoted_or_bare rest none = trim (until is_delimiter rest)

-- Behind the key.
abbrev pub value_of : Option Bytes → Option Bytes
value_of none = none
value_of (some rest) =
    let text = trim_start rest in some (quoted_or_bare text (strip_prefix (quote ∷ []) text))

abbrev pub behind_key : Option Bytes → Option Bytes
behind_key none = none
behind_key (some rest) = value_of (strip_prefix (ascii ":") (trim_start rest))

unfoldable pub json_field : Bytes → Bytes → Option Bytes
json_field json key = behind_key (after_first (quote ∷ (key ++ quote ∷ [])) json)

-- `.context(..)`
abbrev pub context : {A : Type 0} → InfoError → Option A → Outcome InfoError A
context e (some a) = ok a
context e none = err e

abbrev pub some_port : Outcome InfoError ℕ → Outcome InfoError (Option ℕ)
some_port r = r >>= λ port. ok (some port)

-- The arms on the field `qad_port`.
abbrev pub port_of : Option Bytes → Outcome InfoError (Option ℕ)
port_of none = ok none
port_of (some text) =
    if eq text null then ok none else some_port (context bad_qad_port (parse_u16 text))

module _ {EndpointId RelayUrl : Type 0} (parse_id : Bytes → Option EndpointId)
    (parse_url : Bytes → Option RelayUrl) where
  unfoldable pub parse : Bytes → Outcome InfoError (SfuInfo EndpointId RelayUrl)
  parse json = do
    sfu ← context no_sfu (json_field json (ascii "sfu"))
    relay ← context no_relay (json_field json (ascii "relay"))
    alpn ← context no_alpn (json_field json (ascii "alpn"))
    qad_port ← port_of (json_field json (ascii "qad_port"))
    id ← context bad_sfu (parse_id sfu)
    url ← context bad_relay (parse_url relay)
    ok (record { sfu = id; relay = url; alpn = alpn; qad_port = qad_port })
