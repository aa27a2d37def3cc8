-- ===== src/Sip/Message.antt =====
-- `SIPRequest` and `SIPResponse`, their headers and their printed form.
use xylitol.Base.{[], ◌∷◌, ◌++◌, if◌then◌else◌, Bytes, codes, length, equal, ℤ}
use xylitol.Text.{title, itoa, digits_of}
use xylitol.Dict.{Dict, get, insert}

pub record SipRequest : Type 0 where
  pub method : Bytes
  pub uri : Bytes
  pub proto : Bytes
  pub headers : Dict Bytes
  pub authorization : Dict Bytes
  pub body : Bytes

pub record SipResponse : Type 0 where
  pub proto : Bytes
  pub status_code : ℤ
  pub reason : Bytes
  pub headers : Dict Bytes
  pub body : Bytes

abbrev pub crlf : Bytes
crlf = b'\r' ∷ b'\n' ∷ []

-- `r.Headers[strings.Title(name)]`, for a request and for a response.
unfoldable pub get_header : Bytes → SipRequest → Bytes
unfolding get title
get_header name r = get (title name) r.headers

unfoldable pub get_response_header : Bytes → SipResponse → Bytes
unfolding get title
get_response_header name r = get (title name) r.headers

-- The header lines in front of `rest`; the Content-Length of the map is left out.
unfoldable pub print_headers : Dict Bytes → Bytes → Bytes
unfolding equal title
print_headers [] rest = rest
print_headers ((key, value) ∷ headers) rest =
    let later = print_headers headers rest in
    if equal (title key) (codes "Content-Length")
    then later
    else title key ++ (b':' ∷ b' ' ∷ (value ++ (crlf ++ later)))

-- What both printers write behind the headers.
unfoldable pub print_body : Bytes → Bytes
unfolding digits_of
print_body body = codes "Content-Length: " ++ (digits_of (length body) ++ (crlf ++ (crlf ++ body)))

unfoldable pub print_request : SipRequest → Bytes
unfolding print_headers print_body
print_request r =
    r.method
    ++ (b' '
        ∷ (r.uri ++ (b' ' ∷ (r.proto ++ (crlf ++ print_headers r.headers (print_body r.body))))))

unfoldable pub print_response : SipResponse → Bytes
unfolding print_headers print_body itoa
print_response r =
    r.proto
    ++ (b' '
        ∷ (itoa r.status_code
            ++ (b' ' ∷ (r.reason ++ (crlf ++ print_headers r.headers (print_body r.body))))))

-- A copy of a map, entry by entry.
unfoldable pub copy_entries : Dict Bytes → Dict Bytes
unfolding insert
copy_entries [] = []
copy_entries ((k, v) ∷ m) = insert k v (copy_entries m)

unfoldable pub clone : SipRequest → SipRequest
unfolding copy_entries
clone r = record {
  method = r.method;
  uri = r.uri;
  proto = r.proto;
  headers = copy_entries r.headers;
  authorization = copy_entries r.authorization;
  body = r.body;
}
