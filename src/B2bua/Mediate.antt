-- ===== src/B2bua/Mediate.antt =====
-- `mediate`: what the B2BUA does with a response of the callee.
pub mod Branches
use xylitol.Base.{
  ℕ, ◌&&◌, ◌||◌, not, Bool, true, false, List, [], ◌∷◌, ◌++◌, Option, none, some, if◌then◌else◌,
  Bytes, codes, equal, is_nil, ℤ, pos, at_least, Result, ok, err, panic,
}
use xylitol.Text.{to_lower, itoa}
use xylitol.Dict.{Dict, lookup, insert, get}
use xylitol.Sip.Message.{SipRequest, SipResponse, get_response_header}
use xylitol.Sip.Fields.{
  SessionExpires, session_expires, response_session_expires, response_min_se, get_tag,
}
use xylitol.Sip.Build.{build_response}
use xylitol.Tx.InviteClient.{InviteClientTx, new_invite_client_tx}
use xylitol.Server.Sessions.{get_dialog_id}
use xylitol.B2bua.Requests.{Leg, retry_request, with_tag, sip_address}

-- The timer that the caller asked for, if any; a malformed one counts as none.
abbrev timer_of : Result (Option SessionExpires) → Option SessionExpires
timer_of (ok se) = se
timer_of _ = none

require_timer : Option Bytes → Bytes
require_timer none = codes "timer"
require_timer (some existing) = codes "timer, " ++ existing

-- A 2xx response without a session timer, to a request with one: the caller is made to refresh.
unfoldable pub add_session_timer : SipRequest → SipResponse → SipResponse
unfolding session_expires response_session_expires itoa require_timer lookup insert
add_session_timer req res = elim (timer_of (session_expires req)) [
  | none ↦ res
  | some se ↦ elim (timer_of (response_session_expires res)) [
    | some _ ↦ res
    | none ↦
        let headers =
          insert (codes "Session-Expires") (itoa se.delta ++ codes ";refresher=uac") res.headers in
        record res {
          headers =
              insert (codes "Require") (require_timer (lookup (codes "Require") headers)) headers;
        }
  ]
]

-- The headers of a response that the B2BUA or `BuildResponse` makes.
unfoldable pub is_leg_header : Bytes → Bool
unfolding to_lower equal
is_leg_header key =
    let k = to_lower key in
    equal k (codes "via")
    || equal k (codes "from")
    || equal k (codes "to")
    || equal k (codes "call-id")
    || equal k (codes "cseq")
    || equal k (codes "contact")
    || equal k (codes "record-route")

unfoldable pub other_headers : Dict Bytes → Dict Bytes
unfolding is_leg_header insert
other_headers [] = []
other_headers ((k, v) ∷ headers) =
    let rest = other_headers headers in if is_leg_header k then rest else insert k v rest

abbrev pub is_success : SipResponse → Bool
is_success res = at_least 200 res.status_code && not (at_least 300 res.status_code)

-- The Contact and the tag of a 2xx response to the caller.
finish_success : Leg → Dict Bytes → Dict Bytes
unfolding insert get get_tag with_tag
finish_success leg headers =
    let contacted = insert (codes "Contact") (sip_address leg.listen_addr) headers in
    let to = get (codes "To") contacted in
    if is_nil (get_tag to) then insert (codes "To") (with_tag to leg.tag) contacted else contacted

-- The body of the callee's response is not taken over: `BuildResponse` makes an empty one.
unfoldable pub create_virtual_uas_response : Leg → SipRequest → SipResponse → SipResponse
unfolding build_response other_headers finish_success
create_virtual_uas_response leg req res =
    let built = build_response res.status_code res.reason req (other_headers res.headers) in
    if is_success built then record built { headers = finish_success leg built.headers } else built

unfoldable pub response_dialog_id : SipResponse → Bytes
unfolding get_dialog_id get_response_header get_tag
response_dialog_id res =
    get_dialog_id (get_response_header (codes "Call-ID") res)
      (get_tag (get_response_header (codes "From") res))
      (get_tag (get_response_header (codes "To") res))

-- What becomes of the mediation.
pub data Mediation : Type 0 where
  retries : InviteClientTx → Mediation  -- the INVITE again, with a longer interval
  gives_up : SipResponse → Mediation  -- the retry cannot be sent: a final response to the caller
  relays : SipResponse → Mediation  -- a provisional response
  rejects : SipResponse → Mediation  -- a final response other than 2xx
  establishes : SipResponse → Bytes → Bytes → Mediation  -- a 2xx response, and the two dialogs

-- The Min-SE of a 422 response, where it is a number above 0.
retry_interval : SipResponse → Option ℤ
unfolding response_min_se
retry_interval res =
    if not (at_least 422 res.status_code) || at_least 423 res.status_code
    then none
    else elim (response_min_se res) [ ok n ↦ if at_least 1 n then some n else none | _ ↦ none ]

retry : Leg → ℤ → SipRequest → InviteClientTx → Mediation
unfolding retry_request new_invite_client_tx build_response
retry leg min_se req tx =
    elim (new_invite_client_tx (retry_request leg min_se tx.original_request) tx.proto) [
      | ok tx' ↦ retries tx'
      | _ ↦ gives_up (build_response (pos 500) (codes "Server Internal Error") req [])
    ]

-- The response with the session timer where it is a 2xx.
unfoldable pub timed_response : SipRequest → SipResponse → SipResponse
unfolding add_session_timer
timed_response req res = if is_success res then add_session_timer req res else res

-- What the answer to the caller does, by the status of the callee's response.
unfoldable pub by_status : ℤ → SipResponse → Bytes → Bytes → Mediation
by_status status_code answer caller_id callee_id =
    if not (at_least 200 status_code)
    then relays answer
    else if at_least 300 status_code
    then rejects answer
    else establishes answer caller_id callee_id

relay : Leg → SipRequest → SipResponse → Mediation
unfolding timed_response create_virtual_uas_response response_dialog_id by_status
relay leg req res =
    let timed = timed_response req res in
    let answer = create_virtual_uas_response leg req timed in
    by_status res.status_code answer (response_dialog_id answer) (response_dialog_id timed)

-- `req` is the caller's INVITE, `tx` the client transaction, and `res` the callee's response.
unfoldable pub on_response : Leg → SipRequest → InviteClientTx → SipResponse → Mediation
unfolding retry_interval retry relay
on_response leg req tx res = elim (retry_interval res) [
  | some min_se ↦ retry leg min_se req tx
  | none ↦ relay leg req res
]
