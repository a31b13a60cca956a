-- ===== src/Info/Http.antt =====
-- src/info.rs, `serve`, `respond`, and the client's `fetch_info` and `exchange`: the bytes of one
-- request and one response. Sockets, TLS and timeouts are not modelled; a time that ran out is a
-- stream that failed.
pub mod Served
pub mod Fetched
pub mod Backoff
use keep_talking_sfu.Prelude.{
  ℕ, zero, suc, ◌+◌, ◌-◌, ◌*◌, min, Bool, true, false, Option, none, some, List, [], ◌∷◌, ◌++◌,
  length, ltb, ◌==◌, ◌&&◌, if◌then◌else◌,
}
use keep_talking_sfu.Prelude.Outcome.{Outcome, ok, err, panic, ◌>>=◌}
use keep_talking_sfu.Prelude.Wire.{Bytes, ascii}
use keep_talking_sfu.Prelude.Utf8.{from_utf8_lossy}
use keep_talking_sfu.Proto.Stream.{End, finished, failed, Stream, read_pieces}
use keep_talking_sfu.Info.Text.{
  eq, strip_prefix, after_first, until, next_word, first_line, decimal,
}
use keep_talking_sfu.Info.Document.{InfoError, SfuInfo, sfu_alpn, parse}

-- `INFO_PATH`
abbrev pub info_path : Bytes
info_path = ascii "/kt/sfu"

abbrev pub crlf : Bytes
crlf = 13 ∷ 10 ∷ []

-- The empty line behind a head.
abbrev pub blank : Bytes
blank = crlf ++ crlf

abbrev pub is_some : Option Bytes → Bool
is_some (some a) = true
is_some none = false

-- The request head, read with a buffer of 4 KiB; the last one is the model's own.
pub data Head : Type 0 where
  taken : Bytes → Head
  io_error out_of_fuel : Head

abbrev pub buffer_len : ℕ
buffer_len = 4096

-- The loop of `respond`, on fuel.
unfoldable pub read_head : ℕ → Bytes → Stream → Head
read_head zero buf s = out_of_fuel
read_head (suc fuel) buf s =
    let (chunk, rest) = read_pieces (buffer_len - length buf) s.pieces in
    let filled = buf ++ chunk in
    let more = read_head fuel filled (record s { pieces = rest }) in
    let at_end : Head = elim s.ending [ finished ↦ taken buf | failed ↦ io_error ] in
    if ltb (length buf) buffer_len
    then if length chunk == 0
      then at_end
      else if is_some (after_first blank filled)
      then taken filled
      else more
    else taken buf

-- The method and the path of a request line, the path up to its query.
abbrev pub parts_of : Bytes → Bytes × Bytes
parts_of line =
    let (method, rest) = next_word line in
    let (path, tail) = next_word rest in (method, until (λ b. b == 63) path)

unfoldable pub request_of : Bytes → Bytes × Bytes
request_of head = parts_of (first_line head)

abbrev pub or : Bool → Bool → Bool
or a b = if a then true else b

abbrev pub ok_head : ℕ → Bytes
ok_head len =
    ascii "HTTP/1.1 200 OK"
    ++ (crlf
        ++ (ascii "Content-Type: application/json"
            ++ (crlf
                ++ (ascii "Cache-Control: no-store"
                    ++ (crlf
                        ++ (ascii "Content-Length: "
                            ++ (decimal len ++ (crlf ++ (ascii "Connection: close" ++ blank)))))))))

abbrev pub not_found : Bytes
not_found =
    ascii "HTTP/1.1 404 Not Found"
    ++ (crlf ++ (ascii "Content-Length: 0" ++ (crlf ++ (ascii "Connection: close" ++ blank))))

unfoldable pub response : Bytes × Bytes → Bytes → Bytes
response (method, path) body =
    let payload = if eq method (ascii "HEAD") then [] else body in
    if or (eq method (ascii "GET")) (eq method (ascii "HEAD")) && eq path info_path
    then ok_head (length body) ++ payload
    else not_found

abbrev pub answer : Head → Bytes → Option Bytes
answer (taken bytes) body = some (response (request_of (from_utf8_lossy bytes)) body)
answer io_error body = none
answer out_of_fuel body = none

-- What `respond` writes, unless reading the request failed. Each turn reads a byte at least.
unfoldable pub respond : Stream → Bytes → Option Bytes
respond s body = answer (read_head (suc buffer_len) [] s) body

-- `serve` after an accept that succeeded or failed, by the delay kept for the next failure: the
-- time it sleeps, and the new delay.
abbrev pub backoff_min : ℕ
backoff_min = 50

abbrev pub backoff_max : ℕ
backoff_max = 2000

unfoldable pub accept_turn : Bool → ℕ → Option ℕ × ℕ
accept_turn true backoff = (none, backoff_min)
accept_turn false backoff = (some backoff, min (backoff * 2) backoff_max)

-- The sleeps of the accept loop, in milliseconds.
unfoldable pub sleeps : List Bool → ℕ → List (Option ℕ)
sleeps [] backoff = []
sleeps (accepted ∷ rest) backoff =
    let (sleep, next) = accept_turn accepted backoff in sleep ∷ sleeps rest next

pub data FetchError : Type 0 where
  malformed_response : FetchError
  bad_status : Bytes → FetchError
  bad_document : InfoError → FetchError
  other_alpn : Bytes → FetchError

-- `split_once`
abbrev pub cons_before : ℕ → Option (Bytes × Bytes) → Option (Bytes × Bytes)
cons_before b none = none
cons_before b (some (before, after)) = some (b ∷ before, after)

abbrev pub split_here : Option Bytes → Option (Bytes × Bytes) → Option (Bytes × Bytes)
split_here (some after) later = some ([], after)
split_here none later = later

unfoldable pub split_once : Bytes → Bytes → Option (Bytes × Bytes)
split_once pattern [] = split_here (strip_prefix pattern []) none
split_once pattern (b ∷ bs) =
    split_here (strip_prefix pattern (b ∷ bs)) (cons_before b (split_once pattern bs))

-- The request that `fetch_info` sends.
unfoldable pub request : Bytes → Bytes → Bytes
request path host =
    ascii "GET "
    ++ (path
        ++ (ascii " HTTP/1.1"
            ++ (crlf
                ++ (ascii "Host: "
                    ++ (host
                        ++ (crlf
                            ++ (ascii "Accept: application/json"
                                ++ (crlf ++ (ascii "Connection: close" ++ blank)))))))))

-- The second word of the status line.
unfoldable pub status_of : Bytes → Bytes
status_of head = (next_word ((next_word (first_line head)).1)).0

module _ {EndpointId RelayUrl : Type 0} (parse_id : Bytes → Option EndpointId)
    (parse_url : Bytes → Option RelayUrl) where
  abbrev pub check_info :
      Outcome InfoError (SfuInfo EndpointId RelayUrl)
      → Outcome FetchError (SfuInfo EndpointId RelayUrl)
  check_info (ok info) = if eq info.alpn sfu_alpn then ok info else err (other_alpn info.alpn)
  check_info (err e) = err (bad_document e)
  check_info panic = panic

  abbrev pub check_split : Option (Bytes × Bytes) → Outcome FetchError (SfuInfo EndpointId RelayUrl)
  check_split none = err malformed_response
  check_split (some (head, body)) =
      if eq (status_of head) (ascii "200")
      then check_info (parse parse_id parse_url body)
      else err (bad_status (first_line head))

  -- The end of `fetch_info`, on the text of the response.
  unfoldable pub check_response : Bytes → Outcome FetchError (SfuInfo EndpointId RelayUrl)
  check_response text = check_split (split_once blank text)

-- What `exchange` has read: the response, or an error.
abbrev pub response_len : ℕ
response_len = 64 * 1024

-- The loop of `exchange`, on fuel; `unclean` says whether a failed end is an `UnexpectedEof`.
unfoldable pub exchange : ℕ → Bool → Bytes → Stream → Head
exchange zero unclean buf s = out_of_fuel
exchange (suc fuel) unclean buf s =
    let (chunk, rest) = read_pieces 4096 s.pieces in
    let more = exchange fuel unclean (buf ++ chunk) (record s { pieces = rest }) in
    let tolerated : Head =
      if unclean && ltb 0 (length buf) then taken (from_utf8_lossy buf) else io_error in
    let at_end : Head = elim s.ending [
      | finished ↦ taken (from_utf8_lossy buf)
      | failed ↦ tolerated
    ] in
    if ltb (length buf) response_len
    then if length chunk == 0 then at_end else more
    else taken (from_utf8_lossy buf)
