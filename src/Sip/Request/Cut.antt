-- ===== src/Sip/Request/Cut.antt =====
-- A request whose end is missing.
use xylitol.Base.{
  suc, ◌+◌, ◌<◌, ◌≤◌, [], ◌∷◌, ◌++◌, Bytes, length, err, content_length_too_large, ◌≡◌, refl, arith,
}
use xylitol.Text.{digits_of}
use xylitol.Text.Lines.{empty_line}
use xylitol.Sip.Message.{SipRequest, print_request}
use xylitol.Sip.Request.{max_int, body_of, parse_sip_request}
use xylitol.Sip.Request.Body.{body_slice-too_short}
use xylitol.Sip.Request.RoundTrip.{
  IsPrintable, head_of, with_rest, print_request-head, atoi-digits_of, length-raw,
  parse_sip_request-with_rest,
}

body_of-cut :
    (raw head body rest : Bytes)
    → raw ≡ head ++ (empty_line ++ rest)
    → length rest < length body
    → length head + 4 + length body ≤ max_int
    → body_of raw (length head) (digits_of (length body)) ≡ err content_length_too_large
unfolding body_of
body_of-cut raw head [] rest e short small = absurd (omega (arith, short))
body_of-cut raw head (c ∷ body) rest e short small =
    rw
      (
        body_of,
        atoi-digits_of (suc (length body)) (omega (arith, small)),
        body_slice-too_short raw (length head + 4) (suc (length body)) (omega (arith, small))
            (omega (arith, length-raw raw head rest e, short)),
      )
      refl

-- A printable request of which only a part of the body is there is refused.
pub cut_refused :
    (r : SipRequest) (rest : Bytes)
    → IsPrintable r
    → length rest < length r.body
    → parse_sip_request (with_rest r rest) ≡ err content_length_too_large
cut_refused r rest p short = parse_sip_request-with_rest r rest (err content_length_too_large) p (
    body_of-cut (with_rest r rest) (head_of r) r.body rest refl short (
      omega
        (arith, p.fits, length-raw (print_request r) (head_of r) r.body (print_request-head r p))))
