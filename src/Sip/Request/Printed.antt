-- ===== src/Sip/Request/Printed.antt =====
-- What `String` writes is what `ParseSIPRequest` reads.
use xylitol.Base.{
  ℕ, false, [], ◌∷◌, ◌++◌, append_assoc, append-nil, map, none, some, Bytes, codes, length, is_nil,
  All, All-append, equal, ◌==◌, ◌≡◌, refl,
}
use xylitol.Text.{title, trim_space, digits_of, digits_of-Lacks_return, trim_space-digits_of}
use xylitol.Text.Laws.{Lacks, cut-append}
use xylitol.Text.Lines.{lines_then, IsOneLine, empty_line}
use xylitol.Dict.{Dict, lookup, insert-append}
use xylitol.Sip.Message.{SipRequest, print_headers, print_body, print_request}
use xylitol.Sip.Request.{header_line, add_header, add_header_lines}

abbrev pub Entry : Type 0
Entry = Bytes × Bytes

abbrev pub entry_line : Entry → Bytes
entry_line (key, value) = key ++ (b':' ∷ b' ' ∷ value)

-- A header that the printer does not change and the parser reads back.
pub record IsEntry (entry : Entry) : Type 0 where
  pub titled : title entry.0 ≡ entry.0
  pub trimmed_key : trim_space entry.0 ≡ entry.0
  pub trimmed_value : trim_space (b' ' ∷ entry.1) ≡ entry.1
  pub lacks_colon : Lacks b':' entry.0
  pub key_in_line : Lacks b'\r' entry.0
  pub value_in_line : Lacks b'\r' entry.1
  pub no_credentials : equal entry.0 (codes "Authorization") ≡ false

-- The keys are not there yet.
abbrev pub AreNew : Dict Bytes → Dict Bytes → Type 0
AreNew before [] = Unit
AreNew before ((key, value) ∷ headers) =
    (lookup key before ≡ none) × AreNew (before ++ ((key, value) ∷ [])) headers

pub header_line-entry :
    (key value : Bytes)
    → IsEntry (key, value)
    → header_line (entry_line (key, value)) ≡ some (key, value)
unfolding header_line
header_line-entry key value e =
    rw
      (
        header_line,
        cut-append b':' key (b' ' ∷ value) e.lacks_colon,
        e.trimmed_key,
        e.titled,
        e.trimmed_value,
      )
      refl

add_entry :
    (key value : Bytes) (req : SipRequest)
    → lookup key req.headers ≡ none
    → equal key (codes "Authorization") ≡ false
    → add_header (some (key, value)) req ≡ record req { headers = req.headers ++ (key, value) ∷ [] }
unfolding add_header
add_entry key value req new other = rw (insert-append key value req.headers new, other) refl

pub add_header_lines-entries :
    (entries : Dict Bytes) (req : SipRequest)
    → All IsEntry entries
    → AreNew req.headers entries
    → add_header_lines (map entry_line entries) req
      ≡ record req { headers = req.headers ++ entries }
unfolding add_header_lines
add_header_lines-entries [] req h new = rw (append-nil) refl
add_header_lines-entries ((key, value) ∷ entries) req h new =
    rw
      (
        add_header_lines,
        header_line-entry key value h.0,
        add_entry key value req new.0 h.0.no_credentials,
        add_header_lines-entries entries (record req { headers = req.headers ++ (key, value) ∷ [] })
            h.1 new.1,
        append_assoc req.headers ((key, value) ∷ []) entries,
      )
      refl

Lacks-append : (c : ℕ) (a b : Bytes) → Lacks c a → Lacks c b → Lacks c (a ++ b)
Lacks-append c a b = All-append (λ x. (x == c) ≡ false) a b

entry_line-IsOneLine :
    (key value : Bytes) → IsEntry (key, value) → IsOneLine (entry_line (key, value))
entry_line-IsOneLine key value e = (
  Lacks-append b'\r' key (b':' ∷ b' ' ∷ value) e.key_in_line (refl, (refl, e.value_in_line)),
  nonempty key,
)
  where
    nonempty : (key : Bytes) → is_nil (key ++ (b':' ∷ b' ' ∷ value)) ≡ false
    nonempty [] = refl
    nonempty (c ∷ key) = refl

pub lines-IsOneLine :
    (entries : Dict Bytes) → All IsEntry entries → All IsOneLine (map entry_line entries)
lines-IsOneLine [] h = tt
lines-IsOneLine ((key, value) ∷ entries) h =
    (entry_line-IsOneLine key value h.0, lines-IsOneLine entries h.1)

-- The header that the printer adds.
abbrev pub content_length : Bytes → Entry
content_length body = (codes "Content-Length", digits_of (length body))

pub content_length-IsEntry : (body : Bytes) → IsEntry (content_length body)
unfolding title trim_space equal
content_length-IsEntry body = record {
  titled = refl;
  trimmed_key = refl;
  trimmed_value = trim_space-digits_of (length body);
  lacks_colon = (
    refl,
    (
      refl,
      (
        refl,
        (refl, (refl, (refl, (refl, (refl, (refl, (refl, (refl, (refl, (refl, (refl, tt))))))))))),
      ),
    ),
  );
  key_in_line = (
    refl,
    (
      refl,
      (
        refl,
        (refl, (refl, (refl, (refl, (refl, (refl, (refl, (refl, (refl, (refl, (refl, tt))))))))))),
      ),
    ),
  );
  value_in_line = digits_of-Lacks_return (length body);
  no_credentials = refl;
}

-- What the printer writes, by lines.
abbrev pub IsKept : Entry → Type 0
IsKept entry = IsEntry entry × (equal entry.0 (codes "Content-Length") ≡ false)

pub lines_then-content :
    (headers : Dict Bytes) (entry : Entry) (rest : Bytes)
    → lines_then (map entry_line (headers ++ entry ∷ [])) rest
      ≡ lines_then (map entry_line headers) (b'\r' ∷ b'\n' ∷ (entry_line entry ++ rest))
lines_then-content [] entry rest = refl
lines_then-content (first ∷ headers) entry rest = rw (lines_then-content headers entry rest) refl

pub print_headers-lines :
    (headers : Dict Bytes) (rest : Bytes)
    → All IsKept headers
    → b'\r' ∷ b'\n' ∷ print_headers headers rest
      ≡ lines_then (map entry_line headers) (b'\r' ∷ b'\n' ∷ rest)
unfolding print_headers
print_headers-lines [] rest h = refl
print_headers-lines ((key, value) ∷ headers) rest h =
    rw
      (
        print_headers,
        h.0.0.titled,
        h.0.1,
        append_assoc key (b':' ∷ b' ' ∷ value)
            (lines_then (map entry_line headers) (b'\r' ∷ b'\n' ∷ rest)),
        print_headers-lines headers rest h.1,
      )
      refl

pub print_body_line :
    (body : Bytes) → print_body body ≡ entry_line (content_length body) ++ (empty_line ++ body)
unfolding print_body
print_body_line body = refl

-- The request line.
abbrev pub first_line : SipRequest → Bytes
first_line r = r.method ++ (b' ' ∷ (r.uri ++ (b' ' ∷ r.proto)))

abbrev pub sent_headers : SipRequest → Dict Bytes
sent_headers r = r.headers ++ content_length r.body ∷ []

pub print_request-lines :
    (r : SipRequest)
    → All IsKept r.headers
    → print_request r
      ≡ first_line r ++ lines_then (map entry_line (sent_headers r)) (empty_line ++ r.body)
unfolding print_request
print_request-lines r h =
    rw
      (
        print_request,
        lines_then-content r.headers (content_length r.body) (empty_line ++ r.body),
        print_body_line r.body,
        print_headers-lines r.headers (entry_line (content_length r.body) ++ (empty_line ++ r.body))
            h,
        append_assoc r.method,
        append_assoc r.uri,
      )
      refl
