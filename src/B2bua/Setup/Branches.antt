-- ===== src/B2bua/Setup/Branches.antt =====
-- The ends of the setup of a call, each with its reason.
use xylitol.Base.{
  Option, ◌||◌, codes, equal, at_least, [], ◌∷◌, ◌≢◌, Bool, true, false, none, some, Bytes, pos, ok,
  ◌≡◌,
}
use xylitol.Sip.Message.{SipRequest, SipResponse}
use xylitol.Sip.Uri.{SipUri, parse_sip_uri}
use xylitol.Sip.Fields.{SessionExpires, session_expires}
use xylitol.Sip.Build.{build_response}
use xylitol.Tx.InviteClient.{InviteClientTx, new_invite_client_tx}
use xylitol.B2bua.Requests.{Leg, create_virtual_uac_invite}
use xylitol.B2bua.Setup.{SetUp, calls, destination}

-- What the Session-Expires header of an INVITE or UPDATE leads to: nothing, or a refusal that gives
-- the reason. `none` stands for a request that goes on.
pub data TimerVerdict (req : SipRequest) : Option SipResponse → Type 0 where
  not_asked :
      equal req.method (codes "INVITE") || equal req.method (codes "UPDATE") ≡ false
      → TimerVerdict req none
  no_timer : session_expires req ≡ ok none → TimerVerdict req none
  long_enough :
      (se : SessionExpires)
      → session_expires req ≡ ok (some se)
      → at_least 1800 se.delta ≡ true
      → TimerVerdict req none
  too_short :
      (se : SessionExpires)
      → equal req.method (codes "INVITE") || equal req.method (codes "UPDATE") ≡ true
      → session_expires req ≡ ok (some se)
      → at_least 1800 se.delta ≡ false
      → TimerVerdict req (
          some (
            build_response
              (pos 422)
              (codes "Session Interval Too Small")
              req
              ((codes "Min-SE", codes "1800") ∷ [])))
  malformed :
      equal req.method (codes "INVITE") || equal req.method (codes "UPDATE") ≡ true
      → ((se : Option SessionExpires) → session_expires req ≢ ok se)
      → TimerVerdict req (
          some (
            build_response
              (pos 400)
              (codes "Bad Request")
              req
              ((codes "Warning", codes "Malformed Session-Expires header") ∷ [])))

-- How the setup ends for a request of the caller: it is refused for its session timer, for a target
-- that cannot be parsed, for a callee without a transport or a transaction that cannot be made; or
-- the INVITE of the callee's leg is in a client transaction.
pub data SetUpSpec (connect : Bytes × Bytes → Bool) (leg : Leg) (req : SipRequest) (target : Bytes)
    : SetUp → Type 0 where
  timer_refused :
      (res : SipResponse)
      → TimerVerdict req (some res)
      → SetUpSpec connect leg req target (SetUp.refused res)
  bad_target :
      TimerVerdict req none
      → ((uri : SipUri) → parse_sip_uri target ≢ ok uri)
      → SetUpSpec connect leg req target
          (SetUp.refused (build_response (pos 500) (codes "Server Internal Error") req []))
  unreachable :
      (uri : SipUri)
      → TimerVerdict req none
      → parse_sip_uri target ≡ ok uri
      → connect (destination uri) ≡ false
      → SetUpSpec connect leg req target
          (SetUp.refused (build_response (pos 503) (codes "Service Unavailable") req []))
  no_transaction :
      (uri : SipUri) (uac_req : SipRequest)
      → TimerVerdict req none
      → parse_sip_uri target ≡ ok uri
      → connect (destination uri) ≡ true
      → create_virtual_uac_invite leg req target ≡ some uac_req
      → ((tx : InviteClientTx) → new_invite_client_tx uac_req leg.proto ≢ ok tx)
      → SetUpSpec connect leg req target
          (SetUp.refused (build_response (pos 500) (codes "Server Internal Error") req []))
  called :
      (tx : InviteClientTx) (uri : SipUri) (uac_req : SipRequest)
      → TimerVerdict req none
      → parse_sip_uri target ≡ ok uri
      → connect (destination uri) ≡ true
      → create_virtual_uac_invite leg req target ≡ some uac_req
      → new_invite_client_tx uac_req leg.proto ≡ ok tx
      → SetUpSpec connect leg req target (calls tx)
