-- ===== src/Sip/Request/RoundTrip.antt =====
-- A printed request is parsed back.
use xylitol.Base.{
  ℕ, suc, ◌+◌, ◌≤◌, ◌<◌, ◌^◌, false, List, [], ◌∷◌, ◌++◌, append_assoc, append-nil, map, some,
  Bytes, codes, length, length-append, take, drop, take-append, is_nil, All, All-append, equal, pos,
  ok, Result, ◌>>=◌, ◌≡◌, refl, sym, ap, ◌∙◌, arith,
}
use xylitol.Text.{title, split, split_lines, all_parts, atoi, atoi-itoa, itoa, digits_of}
use xylitol.Text.Laws.{Lacks, split-append, split_lacking}
use xylitol.Text.Lines.{lines_then, lines_then-append, split_lines-lines, empty_line, index-lines}
use xylitol.Dict.{Dict, lookup, get}
use xylitol.Sip.Message.{SipRequest, print_request, get_header}
use xylitol.Sip.Request.{
  max_int, add_header_lines, body_of, parse_rest, parse_request_line, end_of_headers,
  parse_sip_request,
}
use xylitol.Sip.Request.Body.{body_slice-fits}
use xylitol.Sip.Request.Printed.{
  entry_line, IsEntry, IsKept, AreNew, content_length, content_length-IsEntry, sent_headers,
  first_line, print_request-lines, add_header_lines-entries, lines-IsOneLine,
}

-- A part of the request line.
abbrev pub IsPart : Bytes → Type 0
IsPart s = Lacks b' ' s × Lacks b'\r' s

pub record IsPrintable (r : SipRequest) : Type 0 where
  pub method_part : IsPart r.method
  pub has_method : is_nil r.method ≡ false
  pub uri_part : IsPart r.uri
  pub proto_part : IsPart r.proto
  pub kept : All IsKept r.headers
  pub distinct : AreNew [] (sent_headers r)
  pub fits : length (print_request r) ≤ max_int

split-first_line :
    (r : SipRequest)
    → IsPrintable r
    → all_parts (split b' ' (first_line r)) ≡ r.method ∷ r.uri ∷ r.proto ∷ []
split-first_line r p =
    rw
      (
        split-append b' ' r.method (r.uri ++ (b' ' ∷ r.proto)) p.method_part.0,
        split-append b' ' r.uri r.proto p.uri_part.0,
        split_lacking b' ' r.proto p.proto_part.0,
      )
      refl

first_line-Lacks : (r : SipRequest) → IsPrintable r → Lacks b'\r' (first_line r)
first_line-Lacks r p =
    All-append _ r.method _ p.method_part.1
      (refl, All-append _ r.uri _ p.uri_part.1 (refl, p.proto_part.1))

pub sent_headers-IsEntry :
    (headers : Dict Bytes) (body : Bytes)
    → All IsKept headers
    → All IsEntry (headers ++ content_length body ∷ [])
sent_headers-IsEntry [] body h = (content_length-IsEntry body, tt)
sent_headers-IsEntry (entry ∷ headers) body h = (h.0.0, sent_headers-IsEntry headers body h.1)

pub lookup-content_length :
    (headers : Dict Bytes) (body : Bytes)
    → All IsKept headers
    → lookup (codes "Content-Length") (headers ++ content_length body ∷ [])
      ≡ some (digits_of (length body))
unfolding lookup equal
lookup-content_length [] body h = refl
lookup-content_length ((key, value) ∷ headers) body h =
    rw (lookup, h.0.1, lookup-content_length headers body h.1) refl

-- The headers of the text, and the text behind them.
abbrev pub head_of : SipRequest → Bytes
head_of r = first_line r ++ lines_then (map entry_line (sent_headers r)) []

pub print_request-head :
    (r : SipRequest) → IsPrintable r → print_request r ≡ head_of r ++ (empty_line ++ r.body)
print_request-head r p =
    print_request-lines r p.kept
    ∙ rw
        (
          lines_then-append (map entry_line (sent_headers r)) (empty_line ++ r.body),
          append_assoc (first_line r) (lines_then (map entry_line (sent_headers r)) []),
        )
        refl

-- The headers of the text with another rest.
abbrev pub with_rest : SipRequest → Bytes → Bytes
with_rest r rest = head_of r ++ (empty_line ++ rest)

end_of_headers-with_rest :
    (r : SipRequest) (rest : Bytes)
    → IsPrintable r
    → end_of_headers (with_rest r rest) ≡ length (head_of r)
unfolding end_of_headers
end_of_headers-with_rest r rest p =
    let lines = map entry_line (sent_headers r) in
    let joined : with_rest r rest ≡ first_line r ++ lines_then lines (empty_line ++ rest) =
      append_assoc (first_line r) (lines_then lines []) (empty_line ++ rest)
      ∙ ap (λ l. first_line r ++ l) (sym (lines_then-append lines (empty_line ++ rest))) in
    rw
      (
        end_of_headers,
        joined,
        index-lines (first_line r) lines rest (first_line-Lacks r p)
            (lines-IsOneLine (sent_headers r) (sent_headers-IsEntry r.headers r.body p.kept)),
      )
      refl

pub atoi-digits_of : (n : ℕ) → n < 2 ^ 63 → atoi (digits_of n) ≡ some (pos n)
unfolding itoa
atoi-digits_of n h = atoi-itoa (pos n) h

pub drop-head : (head body : Bytes) → drop (length head + 4) (head ++ (empty_line ++ body)) ≡ body
drop-head [] body = refl
drop-head (c ∷ head) body =
    let e : length (c ∷ head) + 4 ≡ suc (length head + 4) = omega arith in
    rw e (drop-head head body)

slice :
    (raw head body : Bytes)
    → raw ≡ head ++ (empty_line ++ body)
    → take (length body) (drop (length head + 4) raw) ≡ body
slice raw head body e =
    rw (e, drop-head head body)
      (ap (take (length body)) (sym (append-nil body)) ∙ take-append body [])

pub length-raw :
    (raw head body : Bytes)
    → raw ≡ head ++ (empty_line ++ body)
    → length raw ≡ length head + 4 + length body
length-raw raw head body e =
    ap length e
    ∙ omega (arith, length-append head (empty_line ++ body), length-append empty_line body)

-- The Content-Length is the length of the body, which stands behind the empty line.
body_of_printed :
    (raw head body : Bytes)
    → raw ≡ head ++ (empty_line ++ body)
    → length raw ≤ max_int
    → body_of raw (length head) (digits_of (length body)) ≡ ok body
unfolding body_of
body_of_printed raw head [] e small = rw (body_of, atoi-digits_of 0 (omega arith)) refl
body_of_printed raw head (c ∷ body) e small =
    let whole = length-raw raw head (c ∷ body) e in
    rw
      (
        body_of,
        atoi-digits_of (suc (length body)) (omega (arith, whole, small)),
        body_slice-fits raw (length head + 4) (suc (length body)) (omega (arith, whole, small))
            (omega (arith, whole)),
        slice raw head (c ∷ body) e,
      )
      refl

get_header-content_length :
    (r : SipRequest) (headers : Dict Bytes) (body : Bytes)
    → r.headers ≡ headers ++ content_length body ∷ []
    → All IsKept headers
    → get_header (codes "Content-Length") r ≡ digits_of (length body)
unfolding get_header get title
get_header-content_length r headers body e h = rw (e, lookup-content_length headers body h) refl

-- What the parser starts from.
abbrev started : SipRequest → SipRequest
started r = record r { headers = []; authorization = []; body = [] }

-- Behind the request line, on abstract header lines.
parse_rest-lines :
    (raw : Bytes) (n : ℕ) (lines : List Bytes) (start req : SipRequest) (body : Result Bytes)
    → add_header_lines lines start ≡ req
    → is_nil req.method ≡ false
    → body_of raw n (get_header (codes "Content-Length") req) ≡ body
    → parse_rest raw n lines start ≡ (body >>= λ b. ok (record req { body = b }))
unfolding parse_rest
parse_rest-lines raw n lines start req body e method found = rw (parse_rest, e, method, found) refl

parse_sip_request-head :
    (raw head line : Bytes) (lines : List Bytes) (start : SipRequest) (outcome : Result SipRequest)
    → end_of_headers raw ≡ length head
    → take (length head) raw ≡ head
    → split_lines head ≡ (line, lines)
    → parse_request_line (all_parts (split b' ' line)) ≡ ok start
    → parse_rest raw (length head) lines start ≡ outcome
    → parse_sip_request raw ≡ outcome
unfolding parse_sip_request
parse_sip_request-head raw head line lines start outcome ends taken cut_ first rest =
    rw (parse_sip_request, ends, taken, cut_, first, rest) refl

parse_request_line-first_line :
    (r : SipRequest)
    → IsPrintable r
    → parse_request_line (all_parts (split b' ' (first_line r))) ≡ ok (started r)
unfolding parse_request_line
parse_request_line-first_line r p = rw (split-first_line r p) refl

-- The headers of a printable request are read whatever stands behind them.
pub parse_sip_request-with_rest :
    (r : SipRequest) (rest : Bytes) (body : Result Bytes)
    → IsPrintable r
    → body_of (with_rest r rest) (length (head_of r)) (digits_of (length r.body)) ≡ body
    → parse_sip_request (with_rest r rest)
      ≡ (body >>= λ b. ok (record r { headers = sent_headers r; authorization = []; body = b }))
parse_sip_request-with_rest r rest body p found =
    let raw = with_rest r rest in
    let lines = map entry_line (sent_headers r) in
    let parsed = record (started r) { headers = sent_headers r } in
    let entries = sent_headers-IsEntry r.headers r.body p.kept in
    parse_sip_request-head raw (head_of r) (first_line r) lines (started r)
      (body >>= λ b. ok (record parsed { body = b })) (end_of_headers-with_rest r rest p)
      (take-append (head_of r) (empty_line ++ rest))
      (split_lines-lines (first_line r) lines (first_line-Lacks r p)
        (lines-IsOneLine (sent_headers r) entries))
      (parse_request_line-first_line r p)
      (parse_rest-lines raw (length (head_of r)) lines (started r) parsed body
        (add_header_lines-entries (sent_headers r) (started r) entries p.distinct) p.has_method
        (ap (body_of raw (length (head_of r)))
            (get_header-content_length parsed r.headers r.body refl p.kept)
          ∙ found))

-- A request that is printable, that is, whose method, URI and protocol hold no blank and no
-- carriage return, whose method is not empty, whose headers have keys in title case without colon,
-- different from each other, from Content-Length and from Authorization, have keys and values
-- without carriage return and without white space at their ends, and whose printed form is no
-- longer than the largest `int`, is parsed back from its printed form, with the Content-Length as a
-- further header and without Digest parameters.
pub parse-print_request :
    (r : SipRequest)
    → IsPrintable r
    → parse_sip_request (print_request r)
      ≡ ok (record r { headers = sent_headers r; authorization = [] })
parse-print_request r p =
    let whole = print_request-head r p in
    ap parse_sip_request whole
    ∙ parse_sip_request-with_rest r r.body (ok r.body) p (
        body_of_printed (with_rest r r.body) (head_of r) r.body refl
          (omega (arith, ap length whole, p.fits)))
