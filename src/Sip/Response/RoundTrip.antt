-- ===== src/Sip/Response/RoundTrip.antt =====
-- A printed response is parsed back.
use xylitol.Base.{
  zero, take-past, at_least, ℕ, suc, ◌+◌, ◌-◌, ◌≤◌, ◌<◌, ◌^◌, true, List, [], ◌∷◌, ◌++◌,
  append_assoc, map, some, leb, Bytes, codes, length, take, drop, is_nil, All, pos, ok,
  if◌then◌else◌, ◌≡◌, refl, sym, ap, ◌∙◌, arith,
}
use xylitol.Text.{title, split_lines, all_parts, digits_of, index}
use xylitol.Text.Lines.{lines_then, lines_then-append, split_lines-body, empty_line, index-lines}
use xylitol.Dict.{Dict, get}
use xylitol.Sip.Message.{SipResponse, print_response, get_response_header}
use xylitol.Sip.Request.Printed.{entry_line, IsKept, lines-IsOneLine, content_length}
use xylitol.Sip.Request.RoundTrip.{
  atoi-digits_of, drop-head, length-raw, lookup-content_length, sent_headers-IsEntry,
}
use xylitol.Sip.Response.{
  response_headers, has_empty_line, response_body, parse_response_line, parse_sip_response,
}
use xylitol.Sip.Response.Printed.{
  status_line, all_headers, status_only, IsSendable, print_response-lines, status_line-Lacks,
  parse_response_line-status_line, response_headers-entries, has_empty_line-append,
}

-- The headers of the text.
abbrev pub response_head : SipResponse → Bytes
response_head r = status_line r ++ lines_then (map entry_line (all_headers r)) []

-- The headers of the text, and a rest.
abbrev response_text : SipResponse → Bytes → Bytes
response_text r rest =
    status_line r ++ lines_then (map entry_line (all_headers r)) (empty_line ++ rest)

response_text-head :
    (r : SipResponse) (rest : Bytes)
    → response_text r rest ≡ response_head r ++ (empty_line ++ rest)
response_text-head r rest =
    let lines = map entry_line (all_headers r) in
    ap (λ l. status_line r ++ l) (lines_then-append lines (empty_line ++ rest))
    ∙ sym (append_assoc (status_line r) (lines_then lines []) (empty_line ++ rest))

-- All that stands behind the empty line is the body, unless the Content-Length is 0.
response_body-rest :
    (raw head body rest : Bytes) (lines : List Bytes)
    → raw ≡ head ++ (empty_line ++ rest)
    → index empty_line raw ≡ some (length head)
    → has_empty_line lines ≡ true
    → length body < 2 ^ 63
    → response_body raw lines (digits_of (length body)) ≡ (if is_nil body then [] else rest)
unfolding response_body
response_body-rest raw head [] rest lines e found ended small =
    rw (response_body, atoi-digits_of 0 (omega arith)) refl
response_body-rest raw head (c ∷ body) rest lines e found ended small =
    let fits : leb (length head + 4) (length raw) ≡ true =
      ground (arith, length-raw raw head rest e) in
    let positive : at_least 1 (pos (suc (length body))) ≡ true = ground arith in
    rw (response_body, atoi-digits_of (suc (length body)) small, positive, ended, found, fits)
      (ap (drop (length head + 4)) e ∙ drop-head head rest)

parse_sip_response-lines :
    (raw line : Bytes) (lines : List Bytes) (start : SipResponse) (headers : Dict Bytes)
    (body : Bytes)
    → split_lines raw ≡ (line, lines)
    → parse_response_line line ≡ ok start
    → response_headers lines [] ≡ headers
    → response_body raw lines
        (get_response_header (codes "Content-Length") (record start { headers = headers }))
      ≡ body
    → parse_sip_response raw ≡ ok (record start { headers = headers; body = body })
unfolding parse_sip_response
parse_sip_response-lines raw line lines start headers body cut_ first read found =
    rw (parse_sip_response, cut_, first, read, found) refl

get_response_header-content_length :
    (r : SipResponse) (headers : Dict Bytes) (body : Bytes)
    → r.headers ≡ headers ++ content_length body ∷ []
    → All IsKept headers
    → get_response_header (codes "Content-Length") r ≡ digits_of (length body)
unfolding get_response_header get title
get_response_header-content_length r headers body e h =
    rw (e, lookup-content_length headers body h) refl

parse_sip_response-text :
    (r : SipResponse) (rest : Bytes)
    → IsSendable r
    → parse_sip_response (response_text r rest)
      ≡ ok (record r { headers = all_headers r; body = if is_nil r.body then [] else rest })
parse_sip_response-text r rest p =
    let raw = response_text r rest in
    let lines = map entry_line (all_headers r) in
    let more = all_parts (split_lines rest) in
    let entries = sent_headers-IsEntry r.headers r.body p.kept in
    let parsed = record (status_only r) { headers = all_headers r } in
    let one_line = lines-IsOneLine (all_headers r) entries in
    let line = status_line-Lacks r p in
    parse_sip_response-lines raw (status_line r) (lines ++ ([] ∷ more)) (status_only r)
      (all_headers r) (if is_nil r.body then [] else rest)
      (split_lines-body (status_line r) lines rest line one_line)
      (parse_response_line-status_line r p)
      (response_headers-entries (all_headers r) [] more entries p.distinct)
      (ap (response_body raw (lines ++ ([] ∷ more)))
          (get_response_header-content_length parsed r.headers r.body refl p.kept)
        ∙ response_body-rest raw (response_head r) r.body rest (lines ++ ([] ∷ more))
            (response_text-head r rest) (index-lines (status_line r) lines rest line one_line)
            (has_empty_line-append lines more) p.fits)

take-response_text :
    (r : SipResponse) (n k : ℕ)
    → n ≡ length (response_head r) + (4 + k)
    → take n (response_text r r.body) ≡ response_text r (take k r.body)
take-response_text r n k e = rw e (
    ap (take (length (response_head r) + (4 + k))) (response_text-head r r.body)
    ∙ take-past (response_head r) (empty_line ++ r.body) (4 + k)
    ∙ ap (λ l. response_head r ++ l) (take-past empty_line r.body k)
    ∙ sym (response_text-head r (take k r.body)))

take-body : (body : Bytes) (k : ℕ) → (if is_nil body then [] else take k body) ≡ take k body
take-body [] zero = refl
take-body [] (suc k) = refl
take-body (c ∷ body) k = refl

-- The first `n` bytes of a printed response, its headers and the empty line among them, are parsed
-- to the response, with its Content-Length as a further header, and with as much of the body as is
-- there, for a response that is sendable, that is, whose protocol holds no blank, whose protocol and
-- reason hold no carriage return, whose status and length of the body are numbers of an `int`, and
-- whose headers have keys in title case without colon, different from each other, from
-- Content-Length and from Authorization, and keys and values without carriage return and without
-- white space at their ends. So a printed response is parsed back, and one that is cut within its
-- body is taken for a shorter one.
pub parse-print_response :
    (r : SipResponse) (n : ℕ)
    → IsSendable r
    → length (response_head r) + 4 ≤ n
    → parse_sip_response (take n (print_response r))
      ≡ ok (record r {
        headers = all_headers r;
        body = take (n - (length (response_head r) + 4)) r.body;
      })
parse-print_response r n p headers_fit =
    let k = n - (length (response_head r) + 4) in
    ap (λ raw. parse_sip_response (take n raw)) (print_response-lines r p.kept)
    ∙ ap parse_sip_response (take-response_text r n k (omega (arith, headers_fit)))
    ∙ parse_sip_response-text r (take k r.body) p
    ∙ ap (λ b. ok (record r { headers = all_headers r; body = b })) (take-body r.body k)
