-- ===== src/Tests/Texts.antt =====
-- Texts, header values and messages.
use xylitol.Base.{[], ◌∷◌, some, codes, pos, ok, All, ◌≡◌, refl, arith, ◌+◌}
use xylitol.Text.{all_parts, split, atoi, itoa}
use xylitol.Text.Laws.{join, Lacks, split_lem}
use xylitol.Text.Decimal.{atoi-itoa}
use xylitol.Sip.Message.{SipResponse, get_header}
use xylitol.Sip.Via.{response_top_via, pop_via}
use xylitol.Sip.Via.Values.{ViaSpec, top_via-pop_via}
use xylitol.Sip.Request.{parse_sip_request, end_of_headers}
use xylitol.Sip.Request.Body.{BodySpec, parse_sip_request_body}
use xylitol.Tests.Data.{invite, invite_text, answer}

split_at_comma :
    (join b',' (all_parts (split b',' (codes "a,b"))) ≡ codes "a,b")
    × All (Lacks b',') (all_parts (split b',' (codes "a,b")))
split_at_comma = split_lem b',' (codes "a,b")

read_1800 : atoi (itoa (pos 1800)) ≡ some (pos 1800)
read_1800 = atoi-itoa (pos 1800) (omega arith)

abbrev two_hops : SipResponse
two_hops = record answer { headers = (codes "Via", codes "SIP/2.0/UDP a, SIP/2.0/UDP b") ∷ [] }

top_via-pop_via_example : ViaSpec two_hops (response_top_via two_hops) (pop_via two_hops)
top_via-pop_via_example = top_via-pop_via two_hops

parse_sip_request_body_example :
    BodySpec invite_text
      (end_of_headers invite_text + 4)
      (get_header (codes "Content-Length") invite)
      (ok invite.body)
unfolding parse_sip_request
parse_sip_request_body_example = parse_sip_request_body invite_text invite refl
