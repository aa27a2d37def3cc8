-- ===== src/B2bua/Setup.antt =====
-- `Run` up to its call of `mediate`: the session timer, the INVITE for the callee, the transport
-- and
-- the client transaction.
pub mod Branches
use xylitol.Base.{
  ℕ, ◌||◌, not, Bool, true, false, List, [], ◌∷◌, Option, none, some, if◌then◌else◌, Bytes, codes,
  equal, is_nil, ℤ, pos, at_least, Result, ok, err, panic,
}
use xylitol.Text.{itoa}
use xylitol.Sip.Message.{SipRequest, SipResponse}
use xylitol.Sip.Uri.{SipUri, parse_sip_uri}
use xylitol.Sip.Fields.{SessionExpires, session_expires}
use xylitol.Sip.Build.{build_response}
use xylitol.Tx.InviteClient.{InviteClientTx, new_invite_client_tx}
use xylitol.B2bua.Requests.{Leg, create_virtual_uac_invite}

-- How the setup ends: a final response to the caller, or the client transaction to mediate.
pub data SetUp : Type 0 where
  refused : SipResponse → SetUp
  calls : InviteClientTx → SetUp

-- The least session interval that the B2BUA accepts, in seconds.
abbrev pub b2bua_min_se : ℕ
b2bua_min_se = 1800

too_small : SipRequest → SipResponse
unfolding build_response itoa
too_small req =
    build_response (pos 422) (codes "Session Interval Too Small") req
      ((codes "Min-SE", itoa (pos b2bua_min_se)) ∷ [])

-- The refusal on behalf of the session timer, for INVITE and UPDATE.
unfoldable pub check_session_timer : SipRequest → Option SipResponse
unfolding session_expires too_small build_response equal
check_session_timer req =
    if not (equal req.method (codes "INVITE") || equal req.method (codes "UPDATE"))
    then none
    else elim (session_expires req) [
      | ok none ↦ none
      | ok (some se) ↦ if at_least b2bua_min_se se.delta then none else some (too_small req)
      | _ ↦ some (
          build_response (pos 400) (codes "Bad Request") req
            ((codes "Warning", codes "Malformed Session-Expires header") ∷ []))
    ]

-- The address of the callee: the port is 5060 where it is left out.
unfoldable pub destination : SipUri → Bytes × Bytes
destination uri = (uri.host, if is_nil uri.port then codes "5060" else uri.port)

unavailable : SipRequest → SipResponse
unfolding build_response
unavailable req = build_response (pos 503) (codes "Service Unavailable") req []

failed : SipRequest → SipResponse
unfolding build_response
failed req = build_response (pos 500) (codes "Server Internal Error") req []

-- Behind the transport.
start_client : SipRequest → SipRequest → Bytes → SetUp
unfolding new_invite_client_tx failed
start_client uas_req uac_req proto = elim (new_invite_client_tx uac_req proto) [
  | ok tx ↦ calls tx
  | _ ↦ refused (failed uas_req)
]

-- `connect` stands for `net.ResolveUDPAddr`, or `net.ResolveTCPAddr` and `net.DialTCP`: whether a
-- transport to the host and port is there.
unfoldable pub call_target :
    (Bytes × Bytes → Bool) → SipRequest → SipRequest → Bytes → Bytes → SetUp
unfolding parse_sip_uri destination unavailable start_client build_response
call_target connect uas_req uac_req proto target = elim (parse_sip_uri target) [
  | ok uri ↦
      if connect (destination uri)
      then start_client uas_req uac_req proto
      else refused (unavailable uas_req)
  | _ ↦ refused (
      build_response (pos 400) (codes "Bad Request") uas_req
        ((codes "Warning", codes "Invalid target URI") ∷ []))
]

unfoldable pub set_up : (Bytes × Bytes → Bool) → Leg → SipRequest → Bytes → SetUp
unfolding check_session_timer create_virtual_uac_invite failed call_target
set_up connect leg uas_req target = elim (check_session_timer uas_req) [
  | some res ↦ refused res
  | none ↦ elim (create_virtual_uac_invite leg uas_req target) [
    | none ↦ refused (failed uas_req)
    | some uac_req ↦ call_target connect uas_req uac_req leg.proto target
  ]
]
