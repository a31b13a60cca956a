-- ===== src/Info/Http/Fetched.antt =====
-- The request of `fetch_info` is answered with the info document, and the answer is read back.
use keep_talking_sfu.Prelude.{
  ℕ, zero, suc, ◌<◌, ◌≤◌, ◌≡◌, ◌≢◌, ◌∙◌, refl, sym, ap, true, false, Option, some, [], ◌∷◌, ◌++◌,
  All, All-append, length, ◌==◌, arith, append_assoc,
}
use keep_talking_sfu.Prelude.Outcome.{ok}
use keep_talking_sfu.Prelude.Wire.{Bytes, ascii}
use keep_talking_sfu.Info.Text.{
  eq, strip_prefix, until, space_len, trim_on, trim_start, word, next_word, strip_cr, has_line_end,
  first_line, decimal,
}
use keep_talking_sfu.Info.Text.Laws.{
  Lacks, until-Lacks, IsDigit, IsPlain, decimal-digits, space_len_plain, trim_start_plain,
}
use keep_talking_sfu.Info.Document.{sfu_info_json, sfu_alpn, parse}
use keep_talking_sfu.Info.Document.RoundTrip.{lacks, IsValue, IsPort, parse-sfu_info_json}
use keep_talking_sfu.Info.Http.{
  info_path, crlf, blank, parts_of, request_of, ok_head, response, cons_before, split_once, request,
  status_of, check_info, check_response,
}

space_len_blank : (rest : Bytes) → space_len (32 ∷ rest) ≡ 1
unfolding space_len
space_len_blank [] = refl
space_len_blank (a ∷ []) = refl
space_len_blank (a ∷ b ∷ rest) = refl

word-plain : (text rest : Bytes) → All IsPlain text → word (text ++ 32 ∷ rest) ≡ (text, 32 ∷ rest)
unfolding word
word-plain [] rest h = rw (space_len_blank rest) refl
word-plain (b ∷ text) rest (h, hs) =
    rw (space_len_plain b (text ++ 32 ∷ rest) h, word-plain text rest hs) refl

trim_on_plain : (fuel b : ℕ) (bs : Bytes) → IsPlain b → trim_on fuel (b ∷ bs) ≡ b ∷ bs
unfolding trim_on
trim_on_plain zero b bs h = refl
trim_on_plain (suc fuel) b bs h = rw (space_len_plain b bs h) refl

trim_start_blank : (b : ℕ) (bs : Bytes) → IsPlain b → trim_start (32 ∷ b ∷ bs) ≡ b ∷ bs
unfolding trim_start trim_on
trim_start_blank b bs h = rw (space_len_blank (b ∷ bs), space_len_plain b bs h) refl

strip_cr-append : (line : Bytes) → strip_cr (line ++ 13 ∷ []) ≡ line
unfolding strip_cr
strip_cr-append [] = refl
strip_cr-append (b ∷ []) = refl
strip_cr-append (b ∷ c ∷ line) = ap (λ l. b ∷ l) (strip_cr-append (c ∷ line))

has_line_end-append : (line rest : Bytes) → has_line_end (line ++ 10 ∷ rest) ≡ true
unfolding has_line_end
has_line_end-append [] rest = refl
has_line_end-append (b ∷ line) rest = rw (has_line_end-append line rest) (ground arith)

first_line-append : (line rest : Bytes) → Lacks 10 line → first_line (line ++ (crlf ++ rest)) ≡ line
unfolding first_line
first_line-append line rest h =
    rw
      (
        sym (append_assoc line (13 ∷ []) (10 ∷ rest)),
        has_line_end-append (line ++ 13 ∷ []) rest,
        until-Lacks 10 (line ++ 13 ∷ []) rest
            (All-append (λ c. 10 ≢ c) line (13 ∷ []) h ((λ e. absurd (omega (arith, e))), tt)),
      )
      (strip_cr-append line)

abbrev prepend : Bytes → Option (Bytes × Bytes) → Option (Bytes × Bytes)
prepend [] o = o
prepend (b ∷ bs) o = cons_before b (prepend bs o)

no_cr : (b : ℕ) → 48 ≤ b → (13 == b) ≡ false
no_cr b lo = ground arith

split_once-digits :
    (text rest : Bytes)
    → All IsDigit text
    → split_once blank (text ++ rest) ≡ prepend text (split_once blank rest)
unfolding split_once strip_prefix
split_once-digits [] rest h = refl
split_once-digits (b ∷ text) rest ((lo, hi), hs) =
    rw (split_once-digits text rest hs, no_cr b lo) refl

plain-Lacks : (text : Bytes) → All IsPlain text → Lacks 10 text
plain-Lacks [] h = tt
plain-Lacks (b ∷ text) (h, hs) = ((λ e. absurd (omega (arith, h, e))), plain-Lacks text hs)

line-Lacks :
    (path : Bytes) → All IsPlain path → Lacks 10 (ascii "GET " ++ (path ++ ascii " HTTP/1.1"))
line-Lacks path h =
    All-append (λ c. 10 ≢ c) (ascii "GET ") (path ++ ascii " HTTP/1.1")
      (lacks 10 (ascii "GET ") refl)
      (All-append (λ c. 10 ≢ c) path (ascii " HTTP/1.1") (plain-Lacks path h)
        (lacks 10 (ascii " HTTP/1.1") refl))

parts_of-line :
    (b : ℕ) (bs : Bytes)
    → All IsPlain (b ∷ bs)
    → parts_of (ascii "GET " ++ ((b ∷ bs) ++ ascii " HTTP/1.1"))
      ≡ (ascii "GET", until (λ c. c == 63) (b ∷ bs))
unfolding next_word
parts_of-line b bs (h, hs) =
    let behind = (b ∷ bs) ++ ascii " HTTP/1.1" in
    rw
      (
        trim_start_plain 71 (69 ∷ 84 ∷ 32 ∷ behind) (omega arith, omega arith),
        word-plain (ascii "GET") behind (
          (omega arith, omega arith),
          ((omega arith, omega arith), ((omega arith, omega arith), tt)),
        ),
        trim_start_blank b (bs ++ ascii " HTTP/1.1") h,
        word-plain (b ∷ bs) (ascii "HTTP/1.1") (h, hs),
      )
      refl

-- The request's method and path; a path of plain characters that is not empty.
request_of-request :
    (path host : Bytes)
    → All IsPlain path
    → 0 < length path
    → request_of (request path host) ≡ (ascii "GET", until (λ b. b == 63) path)
unfolding request_of request
request_of-request [] host plain some_path = elim some_path [ ]
request_of-request (b ∷ bs) host (h, hs) some_path =
    let path = b ∷ bs in
    let line = ascii "GET " ++ (path ++ ascii " HTTP/1.1") in
    let behind =
      ascii "Host: "
      ++ (host
          ++ (crlf
              ++ (ascii "Accept: application/json"
                  ++ (crlf ++ (ascii "Connection: close" ++ blank))))) in
    let whole =
      ap (λ t. ascii "GET " ++ t) (append_assoc path (ascii " HTTP/1.1") (crlf ++ behind)) in
    ap parts_of
      (ap first_line (sym whole) ∙ first_line-append line behind (line-Lacks path (h, hs)))
    ∙ parts_of-line b bs (h, hs)

prepend-some :
    (text head body : Bytes) → prepend text (some (head, body)) ≡ some (text ++ head, body)
prepend-some [] head body = refl
prepend-some (b ∷ text) head body = rw (prepend-some text head body) refl

-- The head that comes before the empty line.
abbrev front : Bytes
front =
    ascii "HTTP/1.1 200 OK"
    ++ (crlf
        ++ (ascii "Content-Type: application/json"
            ++ (crlf ++ (ascii "Cache-Control: no-store" ++ (crlf ++ ascii "Content-Length: ")))))

abbrev head_of : ℕ → Bytes
head_of len = front ++ (decimal len ++ (crlf ++ ascii "Connection: close"))

split_once-blank :
    (payload : Bytes)
    → split_once blank (crlf ++ (ascii "Connection: close" ++ (blank ++ payload)))
      ≡ some (crlf ++ ascii "Connection: close", payload)
unfolding split_once strip_prefix
split_once-blank payload = refl

split_once-ok_head :
    (len : ℕ) (payload : Bytes)
    → split_once blank (ok_head len ++ payload) ≡ some (head_of len, payload)
unfolding split_once strip_prefix
split_once-ok_head len payload =
    let behind = crlf ++ (ascii "Connection: close" ++ blank) in
    ap (λ o. prepend front o)
      (ap (λ text. split_once blank text) (append_assoc (decimal len) behind payload)
        ∙ split_once-digits (decimal len) (behind ++ payload) ((decimal-digits len).0)
        ∙ ap (λ o. prepend (decimal len) o) (split_once-blank payload)
        ∙ prepend-some (decimal len) (crlf ++ ascii "Connection: close") payload)

status_of-head_of : (len : ℕ) → eq (status_of (head_of len)) (ascii "200") ≡ true
unfolding eq status_of next_word first_line until has_line_end strip_cr trim_start trim_on space_len
    word
status_of-head_of len = refl

module _ {EndpointId RelayUrl : Type 0} (parse_id : Bytes → Option EndpointId)
    (parse_url : Bytes → Option RelayUrl) where
  check_response-ok_head :
      (len : ℕ) (body : Bytes)
      → check_response parse_id parse_url (ok_head len ++ body)
        ≡ check_info parse_id parse_url (parse parse_id parse_url body)
  unfolding check_response
  check_response-ok_head len body = rw (split_once-ok_head len body, status_of-head_of len) refl

  -- The request that `fetch_info` sends for the info path, with or without a query, is answered by
  -- the listener with a response from which `fetch_info` reads the id, the relay and the port that
  -- the SFU serves. The path has plain characters, the id and URL texts have no quote and are no key
  -- of the document, a port has 16 bits, and id and URL are read back from their texts.
  pub fetched_info :
      (sfu relay path host : Bytes) (qad_port : Option ℕ) (id : EndpointId) (url : RelayUrl)
      → IsValue sfu
      → IsValue relay
      → IsPort qad_port
      → parse_id sfu ≡ some id
      → parse_url relay ≡ some url
      → All IsPlain path
      → 0 < length path
      → until (λ b. b == 63) path ≡ info_path
      → let body = sfu_info_json sfu relay qad_port in
        check_response parse_id parse_url (response (request_of (request path host)) body)
        ≡ ok (record { sfu = id; relay = url; alpn = sfu_alpn; qad_port = qad_port })
  unfolding response eq
  fetched_info sfu relay path host qad_port id url hs hr hp pi pu plain some_path known =
      let body = sfu_info_json sfu relay qad_port in
      ap (λ q. check_response parse_id parse_url (response q body))
        (request_of-request path host plain some_path ∙ ap (λ p. (ascii "GET", p)) known)
      ∙ check_response-ok_head (length body) body
      ∙ ap (check_info parse_id parse_url)
          (parse-sfu_info_json parse_id parse_url sfu relay qad_port id url hs hr hp pi pu)
