-- ===== src/Tests/Streams.antt =====
-- A TCP connection with two messages (their headers in the shortest form), and a stream of two
-- packets.
use xylitol.Base.{
  map, length, ◌+◌, ◌&&◌, ok, ◌%◌, ◌*◌, ◌^◌, [], ◌∷◌, false, List, Bool, equal, codes, drop, pos,
  All, arith, ◌≡◌, refl,
}
use xylitol.Server.Connection.{end_of_stream, handle_connection}
use xylitol.Server.Connection.Framing.{Framed, IsFramed, texts, written, handle_connection-written}
use xylitol.Server.Stream.{parse_content_length}
use xylitol.Text.{digits_of, title, trim_space}
use xylitol.Dict.{lookup}
use xylitol.Sip.Message.{SipRequest, print_request}
use xylitol.Sip.Request.{parse_sip_request}
use xylitol.Sip.Request.Printed.{IsKept, sent_headers}
use xylitol.Sip.Request.RoundTrip.{IsPrintable, parse-print_request}
use xylitol.Server.Listen.{read_datagrams}
use xylitol.Server.Listen.Datagrams.{sent, parsed, arrived, datagrams_parsed}
use xylitol.Guidance.{App}
use xylitol.Guidance.Session.{
  connected, closed, answered, is_finished, SessionEvent, state_changed, invite_ended, stream_ended,
  session_steps,
}
use xylitol.Guidance.Session.Byes.{
  is_connected, is_end, is_invite_ended, count, any, numbers, session_steps_byes,
}
use xylitol.Guidance.Stream.{Packet, Read, samples, stream_wav_file}
use xylitol.Guidance.Stream.Numbering.{packet_numbers}

abbrev first : Framed
first = record { lines = codes "A\r" ∷ codes "l:3\r" ∷ []; body = codes "a\nb" }

abbrev second : Framed
second = record { lines = codes "B\r" ∷ []; body = [] }

framed : All IsFramed (first ∷ second ∷ [])
unfolding parse_content_length equal
framed = (
  (((((refl, (refl, tt)), refl)), (((refl, (refl, (refl, (refl, tt)))), refl), tt)), refl),
  (((((refl, (refl, tt)), refl), tt), refl), tt),
)

handle_connection-written_example :
    handle_connection (written (first ∷ second ∷ [])) ≡ (texts (first ∷ second ∷ []), end_of_stream)
handle_connection-written_example = handle_connection-written (first ∷ second ∷ []) framed

-- A block of three samples, a tick without any, and a block of one.
abbrev reads : List (Read × Bool)
reads =
    (samples (pos 1 ∷ pos 2 ∷ pos 3 ∷ []), false)
    ∷ (samples [], false)
    ∷ (samples (pos 4 ∷ []), false)
    ∷ []

abbrev last : Packet
last = record { sequence_number = 1; timestamp = 160; ssrc = 7; payload = 4 ∷ 0 ∷ [] }

two_packets : drop 1 (stream_wav_file (λ pcm. pcm) 7 reads).0 ≡ last ∷ []
unfolding stream_wav_file
two_packets = refl

packet_numbers_example : (1 ≡ 1 % 2 ^ 16) × (160 ≡ 160 * 1 % 2 ^ 32)
packet_numbers_example = packet_numbers (λ pcm. pcm) 7 reads 1 last [] two_packets

-- A request in the shortest form.
abbrev short : SipRequest
short = record {
  method = codes "A";
  uri = codes "b";
  proto = codes "c";
  headers = (codes "To", codes "x") ∷ [];
  authorization = [];
  body = codes "v\n";
}

pub to_kept : IsKept (codes "To", codes "x")
unfolding title trim_space equal
to_kept = (
  record {
    titled = refl;
    trimmed_key = refl;
    trimmed_value = refl;
    lacks_colon = (refl, (refl, tt));
    key_in_line = (refl, (refl, tt));
    value_in_line = (refl, tt);
    no_credentials = refl;
  },
  refl,
)

short-IsPrintable : IsPrintable short
unfolding lookup equal print_request
short-IsPrintable = record {
  method_part = ((refl, tt), (refl, tt));
  has_method = refl;
  uri_part = ((refl, tt), (refl, tt));
  proto_part = ((refl, tt), (refl, tt));
  kept = (to_kept, tt);
  distinct = (refl, (refl, tt));
  fits = omega arith;
}

parse-print_request_example :
    parse_sip_request (print_request short)
    ≡ ok (record short { headers = sent_headers short; authorization = [] })
parse-print_request_example = parse-print_request short short-IsPrintable

datagrams_parsed_example :
    map parsed (read_datagrams (map sent ((short, codes "10.0.0.2:5060") ∷ []))).0
    ≡ map arrived ((short, codes "10.0.0.2:5060") ∷ [])
unfolding digits_of
datagrams_parsed_example =
    datagrams_parsed ((short, codes "10.0.0.2:5060") ∷ []) ((short-IsPrintable, omega arith), tt)

-- A call that is connected twice: both streams end, each with a BYE.
abbrev events : List SessionEvent
events =
    state_changed connected
    ∷ invite_ended
    ∷ stream_ended
    ∷ state_changed connected
    ∷ state_changed closed
    ∷ stream_ended
    ∷ []

abbrev app : App
app = record {
  call_id = codes "c";
  local_tag = codes "l";
  remote_tag = codes "r";
  remote_target = codes "sip:a@x";
  cseq = 4294967294;
}

bye_numbers : (session_steps events (answered app)).byes ≡ 0 ∷ 4294967295 ∷ []
unfolding session_steps answered
bye_numbers = refl

session_steps_byes_example :
    let s = session_steps events (answered app) in
    (length s.byes + s.streams ≡ count is_connected events)
    × (s.byes ≡ numbers 4294967294 (length s.byes))
    × (is_finished s ≡ any is_invite_ended events && any is_end events)
session_steps_byes_example = session_steps_byes app events (omega arith)
