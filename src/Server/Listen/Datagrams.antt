-- ===== src/Server/Listen/Datagrams.antt =====
-- What the UDP loop makes of requests that are sent in one datagram each.
use xylitol.Base.{
  take-all, take-past, ℕ, suc, ◌+◌, ◌-◌, ◌≤◌, ◌<◌, List, [], ◌∷◌, ◌++◌, map, Bytes, length, take,
  leb, if◌then◌else◌, Result, ok, err, content_length_too_large, ◌≡◌, refl, ap, ◌∙◌, arith, inl,
  inr, Bool-cases, zero, All,
}
use xylitol.Text.Lines.{empty_line}
use xylitol.Sip.Message.{SipRequest, print_request}
use xylitol.Sip.Request.{parse_sip_request}
use xylitol.Sip.Request.Printed.{sent_headers}
use xylitol.Sip.Request.RoundTrip.{
  IsPrintable, head_of, with_rest, print_request-head, length-raw, parse-print_request,
}
use xylitol.Sip.Request.Cut.{cut_refused}
use xylitol.Transport.{Transport, udp}
use xylitol.Transport.Udp.{new_udp_transport}
use xylitol.Server.Listen.{buffer_size, Received, datagram, message_of, read_datagrams}

length-take_less : (n : ℕ) (s : Bytes) → n < length s → length (take n s) < length s
length-take_less n [] h = absurd (omega (arith, h))
length-take_less zero (c ∷ s) h = omega arith
length-take_less (suc n) (c ∷ s) h = omega (arith, h, length-take_less n s)

-- What the buffer holds of a message that is longer.
take-with_rest :
    (r : SipRequest) (n k : ℕ)
    → n ≡ length (head_of r) + (4 + k)
    → take n (with_rest r r.body) ≡ with_rest r (take k r.body)
take-with_rest r n k e = rw e (
    take-past (head_of r) (empty_line ++ r.body) (4 + k)
    ∙ ap (λ l. head_of r ++ l) (take-past empty_line r.body k))

-- What the parser makes of a printed request that came in a datagram.
abbrev pub arrives : SipRequest → Result SipRequest
arrives r =
    if leb (length (print_request r)) buffer_size
    then ok (record r { headers = sent_headers r; authorization = [] })
    else err content_length_too_large

message_cut :
    (r : SipRequest)
    → IsPrintable r
    → length (head_of r) + 4 ≤ buffer_size
    → buffer_size < length (print_request r)
    → parse_sip_request (take buffer_size (print_request r)) ≡ err content_length_too_large
message_cut r p head_fits long =
    let k = buffer_size - (length (head_of r) + 4) in
    let whole = length-raw (print_request r) (head_of r) r.body (print_request-head r p) in
    ap (λ raw. parse_sip_request (take buffer_size raw)) (print_request-head r p)
    ∙ ap parse_sip_request (take-with_rest r buffer_size k (omega (arith, head_fits)))
    ∙ cut_refused r (take k r.body) p
        (length-take_less k r.body (omega (arith, whole, long, head_fits)))

message_parsed :
    (r : SipRequest)
    → IsPrintable r
    → length (head_of r) + 4 ≤ buffer_size
    → parse_sip_request (message_of (print_request r)) ≡ arrives r
unfolding message_of
message_parsed r p head_fits = elim (Bool-cases (leb (length (print_request r)) buffer_size)) [
  | inl fits ↦ rw fits (
      ap parse_sip_request (take-all buffer_size (print_request r) (ground (arith, fits)))
      ∙ parse-print_request r p)
  | inr long ↦ rw long (message_cut r p head_fits (ground (arith, long)))
]

-- A request that is sent in one datagram.
abbrev pub sent : SipRequest × Bytes → Received
sent (r, sender) = datagram (print_request r) sender

abbrev pub parsed : Transport × Bytes → Transport × Result SipRequest
parsed (transport, message) = (transport, parse_sip_request message)

abbrev pub arrived : SipRequest × Bytes → Transport × Result SipRequest
arrived (r, sender) = (udp (new_udp_transport sender), arrives r)

abbrev pub IsSendable : SipRequest × Bytes → Type 0
IsSendable (r, sender) = IsPrintable r × (length (head_of r) + 4 ≤ buffer_size)

-- Printable requests whose headers fit into 4096 bytes, each sent in one datagram, are dispatched in
-- their order, each with a transport to its sender: one whose printed form fits as well is parsed to
-- itself, with its Content-Length as a further header and without Digest parameters, and a longer
-- one is refused, since the rest of its body is lost.
pub datagrams_parsed :
    (rs : List (SipRequest × Bytes))
    → All IsSendable rs
    → map parsed (read_datagrams (map sent rs)).0 ≡ map arrived rs
unfolding read_datagrams
datagrams_parsed [] h = refl
datagrams_parsed ((r, sender) ∷ rs) ((p, head_fits), h) =
    let first : ◌≡◌ {A = Transport × Result SipRequest}
        (udp (new_udp_transport sender), parse_sip_request (message_of (print_request r)))
        (udp (new_udp_transport sender), arrives r) =
      ap (λ m. (udp (new_udp_transport sender), m)) (message_parsed r p head_fits) in
    rw (first, datagrams_parsed rs h) refl
