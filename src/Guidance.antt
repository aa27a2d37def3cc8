-- ===== src/Guidance.antt =====
-- The guidance application (internal/sip/app_guidance.go): it answers a call, plays a WAV file to
-- it,
-- and hangs up.
--
-- The WebRTC stack, the WAV decoder and the G.711 encoder are not code of the repository: their
-- outcomes, and the encoder, are arguments.
pub mod Stream
pub mod Session
pub mod Answer
use xylitol.Base.{
  ℕ, ◌+◌, ◌%◌, ◌^◌, Bool, true, false, not, List, [], ◌∷◌, ◌++◌, take, drop, Option, none, some,
  if◌then◌else◌, ltb, Bytes, codes, is_nil, ℤ, pos, Result, ok, err, panic, ◌>>=◌,
}
use xylitol.Text.{index, fields, number, itoa}
use xylitol.Dict.{Dict, get, insert}
use xylitol.Sip.Message.{SipRequest, SipResponse, get_header}
use xylitol.Sip.Fields.{get_tag}
use xylitol.Sip.Uri.{parse_sip_uri}
use xylitol.Sip.Build.{build_response}
use xylitol.Transport.{Transport, transport_for, get_proto}
use xylitol.Server.State.{Transaction, SipServer}
use xylitol.Server.Serve.{new_client_tx}

-- `App`, without the WebRTC objects; `cseq` is a `uint32`.
pub record App : Type 0 where
  pub call_id : Bytes
  pub local_tag : Bytes
  pub remote_tag : Bytes
  pub remote_target : Bytes
  pub cseq : ℕ

-- `NewApp`
unfoldable pub new_app : App
new_app = record { call_id = []; local_tag = []; remote_tag = []; remote_target = []; cseq = 1 }

-- What the WebRTC calls of `Run` return: whether the codec, the connection, the track and the
-- sender
-- are there, whether the offer is accepted, the answer, and whether it is accepted.
pub record Media : Type 0 where
  pub registers_codec : Bool
  pub connects : Bool
  pub makes_track : Bool
  pub adds_track : Bool
  pub accepts_offer : Bool
  pub answer : Option Bytes
  pub accepts_answer : Bool

abbrev between : Bytes → Option ℕ → Option ℕ → Bytes
between s (some start) (some end) = if ltb start end then drop (start + 1) (take end s) else []
between s _ _ = []

-- The URI in the angle brackets of the Contact, or nothing.
unfoldable pub target_of : Bytes → Bytes
unfolding index
target_of contact = between contact (index (b'<' ∷ []) contact) (index (b'>' ∷ []) contact)

-- `strconv.ParseUint(…, 10, 32)`
abbrev below : ℕ → Option ℕ → Option ℕ
below limit none = none
below limit (some n) = if ltb n limit then some n else none

unfoldable pub parse_uint32 : Bytes → Option ℕ
unfolding number
parse_uint32 s = below (2 ^ 32) (number s)

abbrev or_else : ℕ → Option ℕ → ℕ
or_else known none = known
or_else known (some n) = n

-- The number of the INVITE, or the `known` one where there is none.
first_number : ℕ → List Bytes → ℕ
unfolding parse_uint32
first_number known [] = known
first_number known (part ∷ parts) = or_else known (parse_uint32 part)

unfoldable pub cseq_of : ℕ → Bytes → ℕ
unfolding first_number fields
cseq_of known cseq = first_number known (fields cseq)

-- The state of the application before it needs any media.
unfoldable pub start_call : SipRequest → App
unfolding new_app get_header get_tag target_of cseq_of
start_call req = record new_app {
  call_id = get_header (codes "Call-ID") req;
  local_tag = get_tag (get_header (codes "From") req);
  remote_target = target_of (get_header (codes "Contact") req);
  cseq = cseq_of 1 (get_header (codes "CSeq") req);
}

-- The 200 is completed by the answer and, where its To has no tag, by `tag`, which `GenerateTag`
-- draws.
unfoldable pub with_answer : Bytes → Bytes → SipResponse → SipResponse
unfolding insert get get_tag
with_answer tag sdp res =
    let headers = insert (codes "Content-Type") (codes "application/sdp") res.headers in
    let to = get (codes "To") headers in
    record res {
      headers =
          if is_nil (get_tag to)
          then insert (codes "To") (to ++ (codes ";tag=" ++ tag)) headers
          else headers;
      body = sdp;
    }

-- The outcome by what the media calls return, in their order: a failure, a refusal of the offer, or
-- the answer.
unfoldable pub by_media {ℓ} : {A : Type ℓ} → Media → A → A → (Bytes → A) → A
by_media m failed refused answered =
    if not m.registers_codec
    then failed
    else if not m.connects
    then failed
    else if not m.makes_track
    then failed
    else if not m.adds_track
    then failed
    else if not m.accepts_offer
    then refused
    else elim m.answer [
      | none ↦ failed
      | some sdp ↦ if not m.accepts_answer then failed else answered sdp
    ]

-- The tag of the response is kept.
unfoldable pub keep_tag : App → SipResponse → App × SipResponse
unfolding get get_tag
keep_tag a res = (record a { remote_tag = get_tag (get (codes "To") res.headers) }, res)

-- The state and the response, where `failed`, `refused` and `res` are what is sent in each case.
unfoldable pub answer_of :
    App → Bytes → Media → SipResponse → SipResponse → SipResponse → App × SipResponse
unfolding by_media with_answer keep_tag
answer_of a tag m failed refused res =
    by_media m (a, failed) (a, refused) (λ sdp. keep_tag a (with_answer tag sdp res))

-- A call whose Contact names no target is not answered.
unfoldable pub require_target : App → SipResponse → App × SipResponse → App × SipResponse
require_target a bad answered = if is_nil a.remote_target then (a, bad) else answered

-- The SIP part of `Run`: the state, and the response that goes to `Respond`.
unfoldable pub run : SipRequest → Bytes → Media → App × SipResponse
unfolding start_call require_target answer_of build_response
run req tag m =
    let a = start_call req in
    require_target a (build_response (pos 400) (codes "Bad Request") req []) (
      answer_of a tag m (build_response (pos 500) (codes "Server Internal Error") req [])
        (build_response (pos 488) (codes "Not Acceptable Here") req [])
        (build_response (pos 200) (codes "OK") req []))

-- The BYE; `proto` is the transport of the INVITE.
unfoldable pub bye_request : SipRequest → Bytes → Bytes → Bytes → App → SipRequest
unfolding get_header itoa
bye_request req proto listen_addr branch a = record {
  method = codes "BYE";
  uri = a.remote_target;
  proto = codes "SIP/2.0";
  headers =
      (
        codes "Via",
        codes "SIP/2.0/" ++ (proto ++ (b' ' ∷ (listen_addr ++ (codes ";branch=" ++ branch)))),
      )
      ∷ (codes "From", get_header (codes "To") req ++ (codes ";tag=" ++ a.remote_tag))
      ∷ (codes "To", get_header (codes "From") req ++ (codes ";tag=" ++ a.local_tag))
      ∷ (codes "Call-ID", a.call_id)
      ∷ (codes "CSeq", itoa (pos a.cseq) ++ codes " BYE")
      ∷ (codes "Max-Forwards", codes "70")
      ∷ (codes "Content-Length", codes "0")
      ∷ [];
  authorization = [];
  body = [];
}

-- `atomic.AddUint32(&a.cseq, 1)`
unfoldable pub next_cseq : App → App
next_cseq a = record a { cseq = (a.cseq + 1) % 2 ^ 32 }

-- The transaction of the BYE over a transport.
unfoldable pub bye_over :
    SipRequest → Transport → SipServer → Result (Transport × (Transaction × SipServer))
unfolding new_client_tx get_proto
bye_over bye transport s =
    new_client_tx bye (get_proto transport) s >>= λ started. ok (transport, started)

-- `sendBye` up to the new client transaction: the state with its next CSeq, and the transaction.
unfoldable pub send_bye :
    (Bytes → Bytes → Option Bytes)
    → SipRequest
    → Bytes
    → Bytes
    → App
    → SipServer
    → App × Result (Transport × (Transaction × SipServer))
unfolding next_cseq bye_request parse_sip_uri transport_for bye_over
send_bye resolve req proto branch a s = (
  next_cseq a,
  parse_sip_uri a.remote_target >>= λ dest.
      transport_for resolve dest.host dest.port proto >>= λ transport.
      bye_over (bye_request req proto s.listen_addr branch (next_cseq a)) transport s,
)
