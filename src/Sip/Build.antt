-- ===== src/Sip/Build.antt =====
-- `BuildResponse`, `BuildAck` and `createCancelRequest`.
use xylitol.Base.{
  ◌&&◌, not, List, [], ◌∷◌, ◌++◌, none, some, if◌then◌else◌, Bytes, codes, is_nil, equal, ℤ,
}
use xylitol.Text.{title, contains, before, cut}
use xylitol.Dict.{Dict, get, insert}
use xylitol.Sip.Message.{SipRequest, SipResponse, get_header}

-- The value that the response takes over for header `name`: a To without a tag is given one.
copied_value : Bytes → SipRequest → Bytes
unfolding get_header contains equal
copied_value name req =
    let value = get_header name req in
    if equal name (codes "To") && not (contains (codes "tag=") (get_header (codes "To") req))
    then value ++ codes ";tag=z9hG4bK-response-tag"
    else value

copy_headers : List Bytes → SipRequest → Dict Bytes → Dict Bytes
unfolding copied_value title insert
copy_headers [] req headers = headers
copy_headers (name ∷ names) req headers = copy_headers names req (
    if is_nil (get_header name req)
    then headers
    else insert (title name) (copied_value name req) headers)

-- `for key, val := range extraHeaders`
add_headers : Dict Bytes → Dict Bytes → Dict Bytes
unfolding title insert
add_headers [] headers = headers
add_headers ((key, val) ∷ extra) headers = add_headers extra (insert (title key) val headers)

abbrev pub headers_to_copy : List Bytes
headers_to_copy = codes "Via" ∷ codes "From" ∷ codes "To" ∷ codes "Call-ID" ∷ codes "CSeq" ∷ []

unfoldable pub build_response : ℤ → Bytes → SipRequest → Dict Bytes → SipResponse
unfolding copy_headers add_headers
build_response status_code status_text req extra_headers = record {
  proto = req.proto;
  status_code = status_code;
  reason = status_text;
  headers = add_headers extra_headers (copy_headers headers_to_copy req []);
  body = [];
}

unfoldable pub build_ack : SipResponse → SipRequest → SipRequest
unfolding get get_header before insert
build_ack res original_req =
    let headers =
      (codes "Via", get_header (codes "Via") original_req)
      ∷ (codes "To", get (codes "To") res.headers)
      ∷ (codes "From", get_header (codes "From") original_req)
      ∷ (codes "Call-ID", get_header (codes "Call-ID") original_req)
      ∷ (codes "CSeq", before (b' ' ∷ []) (get_header (codes "CSeq") original_req) ++ codes " ACK")
      ∷ (codes "Max-Forwards", codes "70")
      ∷ [] in
    let route = get_header (codes "Route") original_req in
    record {
      method = codes "ACK";
      uri = original_req.uri;
      proto = original_req.proto;
      headers = if is_nil route then headers else insert (codes "Route") route headers;
      authorization = [];
      body = [];
    }

-- The CSeq of the INVITE with the method CANCEL.
cancel_cseq : Bytes → Bytes
unfolding cut
cancel_cseq cseq = elim (cut (b' ' ∷ []) cseq) [
  | none ↦ codes "1 CANCEL"
  | some (number, _) ↦ number ++ codes " CANCEL"
]

unfoldable pub create_cancel_request : SipRequest → SipRequest
unfolding get get_header cancel_cseq
create_cancel_request invite = record {
  method = codes "CANCEL";
  uri = invite.uri;
  proto = invite.proto;
  headers =
      (codes "From", get (codes "From") invite.headers)
      ∷ (codes "To", get (codes "To") invite.headers)
      ∷ (codes "Call-ID", get (codes "Call-ID") invite.headers)
      ∷ (codes "Via", get (codes "Via") invite.headers)
      ∷ (codes "CSeq", cancel_cseq (get_header (codes "CSeq") invite))
      ∷ (codes "Max-Forwards", codes "70")
      ∷ [];
  authorization = [];
  body = [];
}
