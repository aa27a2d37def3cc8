-- ===== src/Tests/Responses.antt =====
-- A printed response: all of it, and cut within its body.
use xylitol.Base.{equal, ◌+◌, ◌-◌, [], ◌∷◌, codes, length, take, pos, ok, arith, ◌≡◌, refl}
use xylitol.Text.{digits_of, itoa}
use xylitol.Dict.{lookup}
use xylitol.Sip.Message.{SipResponse, print_response}
use xylitol.Sip.Response.{parse_sip_response}
use xylitol.Sip.Response.Printed.{IsSendable, all_headers}
use xylitol.Sip.Response.RoundTrip.{response_head, parse-print_response}
use xylitol.Tests.Streams.{to_kept}

abbrev busy : SipResponse
busy = record {
  proto = codes "S";
  status_code = pos 486;
  reason = codes "Busy Here";
  headers = (codes "To", codes "x") ∷ [];
  body = codes "v=0";
}

busy-IsSendable : IsSendable busy
unfolding lookup equal
busy-IsSendable = record {
  proto_part = ((refl, tt), (refl, tt));
  is_int = omega arith;
  reason_in_line = (refl, (refl, (refl, (refl, (refl, (refl, (refl, (refl, (refl, tt)))))))));
  kept = (to_kept, tt);
  distinct = (refl, (refl, tt));
  fits = omega arith;
}

-- The last byte is missing.
parse-print_response_example :
    parse_sip_response (take 47 (print_response busy))
    ≡ ok (record busy {
      headers = all_headers busy;
      body = take (47 - (length (response_head busy) + 4)) (codes "v=0");
    })
unfolding digits_of itoa
parse-print_response_example = parse-print_response busy 47 busy-IsSendable (omega arith)
