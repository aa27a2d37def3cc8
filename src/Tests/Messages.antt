-- ===== src/Tests/Messages.antt =====
-- SIP messages: parsing and printing.
use xylitol.Tests.Data.{invite, invite_text}
use xylitol.Base.{[], ◌∷◌, equal, ◌≡◌, refl, codes, pos, ok, panic}
use xylitol.Sip.Fields.{get_tag}
use xylitol.Sip.Request.{parse_sip_request}
use xylitol.Sip.Response.{parse_sip_response}

parse_invite : parse_sip_request invite_text ≡ ok invite
unfolding parse_sip_request
parse_invite = refl

-- A length whose sum with the start of the body is above the largest `int`.
parse_huge :
    parse_sip_request (codes "OPTIONS a SIP/2.0\r\nContent-Length: 9223372036854775807\r\n\r\n")
    ≡ panic
unfolding parse_sip_request
parse_huge = refl

parse_response :
    parse_sip_response (codes "SIP/2.0 200 OK\r\nX: y\r\nContent-Length: 1\r\n\r\nab")
    ≡ ok (record {
      proto = codes "SIP/2.0";
      status_code = pos 200;
      reason = codes "OK";
      headers = (codes "X", codes "y") ∷ (codes "Content-Length", codes "1") ∷ [];
      body = codes "ab";
    })
unfolding parse_sip_response equal
parse_response = refl

tag : get_tag (codes "<sip:alice@h>;x=1; tag=a1") ≡ codes "a1"
unfolding get_tag
tag = refl
