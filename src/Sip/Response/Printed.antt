-- ===== src/Sip/Response/Printed.antt =====
-- What `String` of a response writes is what `ParseSIPResponse` reads.
use xylitol.Base.{
  ◌<◌, ◌^◌, true, List, [], ◌∷◌, ◌++◌, append_assoc, append-nil, map, some, Bytes, length, All,
  All-append, ℤ, ok, ◌≡◌, refl, sym, arith,
}
use xylitol.Text.{cut, atoi, itoa, atoi-itoa, IsInt, itoa-Lacks}
use xylitol.Text.Laws.{Lacks, cut-append}
use xylitol.Text.Lines.{lines_then, empty_line}
use xylitol.Dict.{Dict, insert-append}
use xylitol.Sip.Message.{SipResponse, print_response}
use xylitol.Sip.Request.Printed.{
  entry_line, IsEntry, IsKept, AreNew, header_line-entry, lines-IsOneLine, content_length,
  lines_then-content, print_headers-lines, print_body_line,
}
use xylitol.Sip.Response.{response_headers, has_empty_line, parse_response_line}

abbrev pub status_line : SipResponse → Bytes
status_line r = r.proto ++ (b' ' ∷ (itoa r.status_code ++ (b' ' ∷ r.reason)))

abbrev pub all_headers : SipResponse → Dict Bytes
all_headers r = r.headers ++ content_length r.body ∷ []

-- A response that is read back.
pub record IsSendable (r : SipResponse) : Type 0 where
  pub proto_part : Lacks b' ' r.proto × Lacks b'\r' r.proto
  pub is_int : IsInt r.status_code
  pub reason_in_line : Lacks b'\r' r.reason
  pub kept : All IsKept r.headers
  pub distinct : AreNew [] (all_headers r)
  pub fits : length r.body < 2 ^ 63

pub print_response-lines :
    (r : SipResponse)
    → All IsKept r.headers
    → print_response r
      ≡ status_line r ++ lines_then (map entry_line (all_headers r)) (empty_line ++ r.body)
unfolding print_response
print_response-lines r h =
    rw
      (
        print_response,
        lines_then-content r.headers (content_length r.body) (empty_line ++ r.body),
        print_body_line r.body,
        print_headers-lines r.headers (entry_line (content_length r.body) ++ (empty_line ++ r.body))
            h,
        append_assoc r.proto,
        append_assoc (itoa r.status_code),
      )
      refl

pub status_line-Lacks : (r : SipResponse) → IsSendable r → Lacks b'\r' (status_line r)
status_line-Lacks r p = All-append _ r.proto _ p.proto_part.1 (
  refl,
  All-append _ (itoa r.status_code) _ (itoa-Lacks b'\r' r.status_code refl refl)
      (refl, p.reason_in_line),
)

-- What the parser starts from.
abbrev pub status_only : SipResponse → SipResponse
status_only r = record r { headers = []; body = [] }

parse_response_line-parts :
    (line proto rest code reason : Bytes) (z : ℤ)
    → cut (b' ' ∷ []) line ≡ some (proto, rest)
    → cut (b' ' ∷ []) rest ≡ some (code, reason)
    → atoi code ≡ some z
    → parse_response_line line
      ≡ ok (record { proto = proto; status_code = z; reason = reason; headers = []; body = [] })
unfolding parse_response_line
parse_response_line-parts line proto rest code reason z first second found = ground arith

pub parse_response_line-status_line :
    (r : SipResponse) → IsSendable r → parse_response_line (status_line r) ≡ ok (status_only r)
parse_response_line-status_line r p =
    let rest = itoa r.status_code ++ (b' ' ∷ r.reason) in
    parse_response_line-parts (status_line r) r.proto rest (itoa r.status_code) r.reason
      r.status_code (cut-append b' ' r.proto rest p.proto_part.0)
      (cut-append b' ' (itoa r.status_code) r.reason (itoa-Lacks b' ' r.status_code refl refl))
      (atoi-itoa r.status_code p.is_int)

pub response_headers-entries :
    (entries before : Dict Bytes) (more : List Bytes)
    → All IsEntry entries
    → AreNew before entries
    → response_headers (map entry_line entries ++ ([] ∷ more)) before ≡ before ++ entries
unfolding response_headers
response_headers-entries [] before more h new = sym (append-nil before)
response_headers-entries ((key, value) ∷ entries) before more h new =
    rw
      (
        response_headers,
        header_line-entry key value h.0,
        (lines-IsOneLine ((key, value) ∷ []) (h.0, tt)).0.1,
        insert-append key value before new.0,
        response_headers-entries entries (before ++ (key, value) ∷ []) more h.1 new.1,
        append_assoc before ((key, value) ∷ []) entries,
      )
      refl

pub has_empty_line-append : (lines more : List Bytes) → has_empty_line (lines ++ ([] ∷ more)) ≡ true
unfolding has_empty_line
has_empty_line-append [] more = refl
has_empty_line-append (line ∷ lines) more = ground (arith, has_empty_line-append lines more)
