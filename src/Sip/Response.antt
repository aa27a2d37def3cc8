-- ===== src/Sip/Response.antt =====
-- `ParseSIPResponse`.
pub mod Printed
pub mod RoundTrip
use xylitol.Base.{
  ◌+◌, Bool, true, false, List, [], ◌∷◌, Option, none, some, leb, if◌then◌else◌, Bytes, codes,
  length, drop, is_nil, Result, ok, err, ◌>>=◌, invalid_response_line, invalid_status_code,
  at_least,
}
use xylitol.Text.{index, split_lines, cut, atoi}
use xylitol.Dict.{Dict, insert}
use xylitol.Sip.Message.{SipResponse, get_response_header}
use xylitol.Sip.Request.{header_line}

abbrev insert_line : Option (Bytes × Bytes) → Dict Bytes → Dict Bytes
insert_line none headers = headers
insert_line (some (key, value)) headers = insert key value headers

-- The loop over `lines[1:headerEndIndex]`, up to the first empty line.
unfoldable pub response_headers : List Bytes → Dict Bytes → Dict Bytes
unfolding header_line insert
response_headers [] headers = headers
response_headers (line ∷ lines) headers =
    let rest = response_headers lines (insert_line (header_line line) headers) in
    if is_nil line then headers else rest

-- Whether the loop that looks for the end of the headers finds an empty line.
unfoldable pub has_empty_line : List Bytes → Bool
has_empty_line [] = false
has_empty_line (line ∷ lines) =
    let rest = has_empty_line lines in if is_nil line then true else rest

-- All that stands behind the empty line, where the Content-Length is positive.
response_body : Bytes → List Bytes → Bytes → Bytes
unfolding has_empty_line index atoi
response_body raw lines content_length = elim (atoi content_length) [
  | none ↦ []
  | some n ↦
      if at_least 1 n
      then elim (has_empty_line lines) [
        | false ↦ []
        | true ↦ elim (index (b'\r' ∷ b'\n' ∷ b'\r' ∷ b'\n' ∷ []) raw) [
          | none ↦ []
          | some i ↦ if leb (i + 4) (length raw) then drop (i + 4) raw else []
        ]
      ]
      else []
]

abbrev code_and_reason : Option (Bytes × Bytes) → Bytes → Bytes × Bytes
code_and_reason none rest = (rest, [])
code_and_reason (some (code, reason)) rest = (code, reason)

-- `SIP/2.0 200 OK`; the reason may be missing.
unfoldable pub parse_response_line : Bytes → Result SipResponse
unfolding cut atoi
parse_response_line line = elim (cut (b' ' ∷ []) line) [
  | none ↦ err invalid_response_line
  | some (proto, rest) ↦
      let (code, reason) = code_and_reason (cut (b' ' ∷ []) rest) rest in
      elim (atoi code) [
        | none ↦ err invalid_status_code
        | some status_code ↦ ok (record {
          proto = proto;
          status_code = status_code;
          reason = reason;
          headers = [];
          body = [];
        })
      ]
]

unfoldable pub parse_sip_response : Bytes → Result SipResponse
unfolding parse_response_line response_headers response_body split_lines get_response_header
parse_sip_response raw = do
  let (line, lines) = split_lines raw
  start ← parse_response_line line
  let res = record start { headers = response_headers lines [] }
  ok (record res {
    body = response_body raw lines (get_response_header (codes "Content-Length") res);
  })
