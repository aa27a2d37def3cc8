-- ===== src/Sip/Request/Body.antt =====
-- The body of a parsed request, and the lengths that bring the parser down.
use xylitol.Base.{
  ℕ, zero, suc, ◌+◌, ◌≤◌, ◌<◌, Bool, true, false, List, [], ◌∷◌, none, some, ltb, if◌then◌else◌,
  Bytes, codes, length, take, drop, is_nil, ℤ, at_least, pos, negsuc, Result, ok, err, panic, ◌>>=◌,
  >>=-eq-ok, ◌≡◌, sym, subst, ◌⊎◌, inl, inr, refl, ap, arith, length-drop, Option-cases, Bool-cases,
  content_length_too_large, missing_method,
}
use xylitol.Text.{atoi, split, split_lines, all_parts}
use xylitol.Sip.Message.{SipRequest, get_header}
use xylitol.Sip.Request.{
  max_int, body_slice, body_of, parse_rest, end_of_headers, parse_sip_request, add_header_lines,
  parse_request_line,
}

length-take_le : (n : ℕ) (s : Bytes) → n ≤ length s → length (take n s) ≡ n
length-take_le zero s h = refl
length-take_le (suc n) [] h = elim h [ ]
length-take_le (suc n) (x ∷ s) h = ap suc (length-take_le n s (omega arith))

-- What the Content-Length of a message makes of its body, `start` where the body begins: none, the
-- bytes that it announces, an error, or a panic.
pub data BodySpec (raw : Bytes) (start : ℕ) (content_length : Bytes) : Result Bytes → Type 0 where
  no_number : atoi content_length ≡ none → BodySpec raw start content_length (ok [])
  not_positive :
      (n : ℤ)
      → atoi content_length ≡ some n
      → at_least 1 n ≡ false
      → BodySpec raw start content_length (ok [])
  present :
      (n : ℕ) (body : Bytes)
      → atoi content_length ≡ some (pos (suc n))
      → start + suc n ≤ length raw
      → body ≡ take (suc n) (drop start raw)
      → length body ≡ suc n
      → BodySpec raw start content_length (ok body)
  too_short :
      (n : ℕ)
      → atoi content_length ≡ some (pos (suc n))
      → length raw < start + suc n
      → start + suc n ≤ max_int
      → BodySpec raw start content_length (err content_length_too_large)
  overflow :
      (n : ℕ)
      → atoi content_length ≡ some (pos (suc n))
      → max_int < start + suc n
      → BodySpec raw start content_length panic

pub body_slice-fits :
    (raw : Bytes) (start n : ℕ)
    → start + n ≤ max_int
    → start + n ≤ length raw
    → body_slice raw start n ≡ ok (take n (drop start raw))
unfolding body_slice
body_slice-fits raw start n small fits = ground arith

pub body_slice-too_short :
    (raw : Bytes) (start n : ℕ)
    → start + n ≤ max_int
    → length raw < start + n
    → body_slice raw start n ≡ err content_length_too_large
unfolding body_slice
body_slice-too_short raw start n small short = ground arith

body_slice-wraps :
    (raw : Bytes) (start n : ℕ) → max_int < start + n → body_slice raw start n ≡ panic
unfolding body_slice
body_slice-wraps raw start n large = ground arith

ltb-split : (a b : ℕ) → (a < b) ⊎ (b ≤ a)
ltb-split a b = elim (Bool-cases (ltb a b)) [
  | inl h ↦ inl (ground arith)
  | inr h ↦ inr (ground arith)
]

body_slice_lem :
    (raw : Bytes) (start n : ℕ) (content_length : Bytes)
    → atoi content_length ≡ some (pos (suc n))
    → BodySpec raw start content_length (body_slice raw start (suc n))
body_slice_lem raw start n content_length h = elim (ltb-split max_int (start + suc n)) [
  | inl wraps ↦
      subst (BodySpec raw start content_length) (sym (body_slice-wraps raw start (suc n) wraps))
        (overflow n h wraps)
  | inr small ↦ elim (ltb-split (length raw) (start + suc n)) [
    | inl short ↦
        subst (BodySpec raw start content_length)
          (sym (body_slice-too_short raw start (suc n) small short)) (too_short n h short small)
    | inr fits ↦
        subst (BodySpec raw start content_length)
          (sym (body_slice-fits raw start (suc n) small fits))
          (present n (take (suc n) (drop start raw)) h fits refl
            (length-take_le (suc n) (drop start raw) (omega (arith, length-drop start raw))))
  ]
]

body_of_lem-go :
    (raw : Bytes) (n : ℕ) (content_length : Bytes) (z : ℤ)
    → atoi content_length ≡ some z
    → BodySpec raw (n + 4) content_length (body_of raw n content_length)
unfolding body_of
body_of_lem-go raw n content_length (pos zero) h = rw (h, body_of) (not_positive (pos zero) h refl)
body_of_lem-go raw n content_length (pos (suc k)) h =
    rw (h, body_of) (body_slice_lem raw (n + 4) k content_length h)
body_of_lem-go raw n content_length (negsuc k) h = rw (h, body_of) (not_positive (negsuc k) h refl)

body_of_lem :
    (raw : Bytes) (n : ℕ) (content_length : Bytes)
    → BodySpec raw (n + 4) content_length (body_of raw n content_length)
unfolding body_of
body_of_lem raw n content_length = elim (Option-cases (atoi content_length)) [
  | inl h ↦ rw (h, body_of) (no_number h)
  | inr (z, h) ↦ body_of_lem-go raw n content_length z h
]

parse_rest-eq_ok :
    (b : Bool) (r : SipRequest) (body : Result Bytes) (req : SipRequest)
    → (if b then err missing_method else do value ← body; ok (record r { body = value })) ≡ ok req
    → (body ≡ ok req.body) × (r.headers ≡ req.headers)
parse_rest-eq_ok true r body req h = cc
parse_rest-eq_ok false r (ok value) req h = (cc, cc)
parse_rest-eq_ok false r (err e) req h = cc
parse_rest-eq_ok false r panic req h = cc

parse_rest_body :
    (raw : Bytes) (n : ℕ) (lines : List Bytes) (start req : SipRequest)
    → parse_rest raw n lines start ≡ ok req
    → BodySpec raw (n + 4) (get_header (codes "Content-Length") req) (ok req.body)
unfolding parse_rest get_header
parse_rest_body raw n lines start req h =
    let r = add_header_lines lines start in
    let facts =
      parse_rest-eq_ok (is_nil r.method) r (body_of raw n (get_header (codes "Content-Length") r))
        req h in
    rw (sym facts.0, sym facts.1) (body_of_lem raw n (get_header (codes "Content-Length") r))

-- Where a message is accepted, its body is what its own Content-Length asks for: empty where that
-- is missing, no number, or not positive, and else exactly so many of the bytes behind the empty
-- line, which the message then has.
pub parse_sip_request_body :
    (raw : Bytes) (req : SipRequest)
    → parse_sip_request raw ≡ ok req
    → BodySpec raw (end_of_headers raw + 4) (get_header (codes "Content-Length") req) (ok req.body)
unfolding parse_sip_request
parse_sip_request_body raw req h =
    let lines = split_lines (take (end_of_headers raw) raw) in
    let (start, start_eq, rest_eq) =
      >>=-eq-ok (parse_request_line (all_parts (split b' ' lines.0)))
        (λ start. parse_rest raw (end_of_headers raw) lines.1 start) h in
    parse_rest_body raw (end_of_headers raw) lines.1 start req rest_eq
