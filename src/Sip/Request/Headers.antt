-- ===== src/Sip/Request/Headers.antt =====
-- Repeated header lines: the last one counts.
use xylitol.Base.{List, [], ◌∷◌, ◌++◌, some, Bytes, equal_refl, ◌≡◌, refl}
use xylitol.Dict.{lookup, lookup-insert}
use xylitol.Sip.Message.{SipRequest}
use xylitol.Sip.Request.{header_line, add_header, add_header_lines}

add_header_lines-append :
    (lines : List Bytes) (line : Bytes) (req : SipRequest)
    → add_header_lines (lines ++ line ∷ []) req
      ≡ add_header (header_line line) (add_header_lines lines req)
unfolding add_header_lines
add_header_lines-append [] line req = refl
add_header_lines-append (l ∷ lines) line req = add_header_lines-append lines line _

-- The value of a header is that of its last line: earlier lines of the same header, such as the
-- further Via lines of a request, are overwritten and not joined to a list.
pub last_line_counts :
    (lines : List Bytes) (line : Bytes) (req : SipRequest) (key value : Bytes)
    → header_line line ≡ some (key, value)
    → lookup key (add_header_lines (lines ++ line ∷ []) req).headers ≡ some value
last_line_counts lines line req key value h =
    rw (add_header_lines-append lines line req, h)
      (unfold add_header in
        rw (lookup-insert key key value (add_header_lines lines req).headers, equal_refl key))
