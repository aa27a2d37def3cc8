-- ===== src/Sip/Request.antt =====
-- `ParseSIPRequest`.
pub mod Body
pub mod Headers
pub mod Printed
pub mod RoundTrip
pub mod Cut
use xylitol.Base.{
  ℕ, zero, suc, ◌+◌, ◌-◌, ◌^◌, Bool, true, false, List, [], ◌∷◌, Option, none, some, ltb, leb,
  if◌then◌else◌, Bytes, codes, length, take, drop, is_nil, equal, ℤ, pos, negsuc, Result, ok, err,
  panic, ◌>>=◌, invalid_request_line, missing_method, content_length_too_large,
}
use xylitol.Text.{Parts, all_parts, title, trim_space, index, split, split_lines, cut, atoi}
use xylitol.Dict.{Dict, get, insert}
use xylitol.Sip.Message.{SipRequest, crlf, get_header}
use xylitol.Sip.Fields.{parse_auth_header}
use xylitol.Sip.Message

-- A header line, `none` where it has no colon: the key in title case, and the value.
unfoldable pub header_line : Bytes → Option (Bytes × Bytes)
unfolding cut trim_space title
header_line line = elim (cut (b':' ∷ []) line) [
  | none ↦ none
  | some (key, value) ↦ some (title (trim_space key), trim_space value)
]

-- One round of the loop over the header lines. (An empty line has no colon either.)
pub add_header : Option (Bytes × Bytes) → SipRequest → SipRequest
unfolding parse_auth_header equal insert
add_header none req = req
add_header (some (key, value)) req = record req {
  headers = insert key value req.headers;
  authorization =
      if equal key (codes "Authorization") then parse_auth_header value else req.authorization;
}

pub add_header_lines : List Bytes → SipRequest → SipRequest
unfolding header_line add_header
add_header_lines [] req = req
add_header_lines (line ∷ lines) req = add_header_lines lines (add_header (header_line line) req)

abbrev pub max_int : ℕ
max_int = 2 ^ 63 - 1

-- `raw[bodyStart : bodyStart+n]` behind its test. A sum above the largest `int` wraps to a negative
-- number, so that the test holds and the slice panics.
pub body_slice : Bytes → ℕ → ℕ → Result Bytes
body_slice raw start n =
    if ltb max_int (start + n)
    then panic
    else if leb (start + n) (length raw)
    then ok (take n (drop start raw))
    else err content_length_too_large

-- The body by the Content-Length: none where that is missing, no number, or not positive.
pub body_of : Bytes → ℕ → Bytes → Result Bytes
unfolding atoi body_slice
body_of raw end_of_headers content_length = elim (atoi content_length) [
  | none ↦ ok []
  | some (negsuc n) ↦ ok []
  | some (pos zero) ↦ ok []
  | some (pos (suc n)) ↦ body_slice raw (end_of_headers + 4) (suc n)
]

-- Behind the request line: the headers, the method and the body.
pub parse_rest : Bytes → ℕ → List Bytes → SipRequest → Result SipRequest
unfolding add_header_lines body_of get_header
parse_rest raw end_of_headers lines start =
    let req = add_header_lines lines start in
    if is_nil req.method then err missing_method else do
      body ← body_of raw end_of_headers (get_header (codes "Content-Length") req)
      ok (record req { body = body })

-- A request line has three parts.
pub parse_request_line : List Bytes → Result SipRequest
parse_request_line (method ∷ uri ∷ proto ∷ []) = ok (record {
  method = method;
  uri = uri;
  proto = proto;
  headers = [];
  authorization = [];
  body = [];
})
parse_request_line _ = err invalid_request_line

abbrev end_of_headers_or : Option ℕ → ℕ → ℕ
end_of_headers_or none n = n
end_of_headers_or (some i) n = i

-- Where the headers end: at the empty line, or at the end of the message.
unfoldable pub end_of_headers : Bytes → ℕ
unfolding index
end_of_headers raw = end_of_headers_or (index (b'\r' ∷ b'\n' ∷ b'\r' ∷ b'\n' ∷ []) raw) (length raw)

unfoldable pub parse_sip_request : Bytes → Result SipRequest
unfolding parse_request_line parse_rest end_of_headers split_lines split
parse_sip_request raw = do
  let (line, lines) = split_lines (take (end_of_headers raw) raw)
  start ← parse_request_line (all_parts (split b' ' line))
  parse_rest raw (end_of_headers raw) lines start
