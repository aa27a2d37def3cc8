-- ===== src/B2bua/Ending.antt =====
-- The ends of a call: `Cancel`, `Disconnect`, and the last two cases of `mediate`.
--
-- The two maps of the server that name the call are those of `Call`; of the server state, only its
-- transactions change here.
pub mod Cancelled
pub mod Disconnected
use xylitol.Base.{
  ℕ, ◌&&◌, not, Bool, true, false, List, [], ◌∷◌, Option, none, some, if◌then◌else◌, Bytes, codes,
  is_nil, pos, Result, ok, err, panic, ◌>>=◌,
}
use xylitol.Sip.Message.{SipRequest, SipResponse}
use xylitol.Sip.Build.{build_response, create_cancel_request}
use xylitol.Tx.InviteClient.{InviteClientTx, terminate}
use xylitol.Server.State.{Transaction, SipServer}
use xylitol.Server.Serve.{Served, blocked, reply, new_client_tx}
use xylitol.B2bua.Requests.{Leg, create_bye_for_uac_leg, create_bye_for_uas_leg}
use xylitol.B2bua.Life.{Call, cleanup}

-- The CANCEL to the callee, unless the transaction of its leg is done; and that transaction. Where
-- its mutex is never released, `Terminate` waits, behind the CANCEL.
unfoldable pub cancel_leg : InviteClientTx → Option SipRequest × InviteClientTx
unfolding create_cancel_request terminate
cancel_leg uac =
    if uac.done
    then (none, uac)
    else (some (create_cancel_request uac.original_request), terminate uac)

-- What an end of the call leaves: what is written to the callee, its leg, what becomes of the
-- INVITE
-- of the caller, and the call.
pub record Ended : Type 0 where
  pub to_callee : Option SipRequest
  pub uac : Option InviteClientTx
  pub served : Served
  pub call : Call

-- The 487 and `cleanup`.
unfoldable pub request_terminated :
    Bool → SipRequest → Transaction → Option SipRequest → Option InviteClientTx → Call → Ended
unfolding reply build_response cleanup
request_terminated pick invite uas to_callee uac call = record {
  to_callee = to_callee;
  uac = uac;
  served = reply pick (build_response (pos 487) (codes "Request Terminated") invite []) uas;
  call = cleanup call;
}

-- `Cancel`; `invite` is the request of `uas`. A `Terminate` that waits keeps the rest from running.
unfoldable pub cancel : Bool → SipRequest → Transaction → Option InviteClientTx → Call → Ended
unfolding cancel_leg request_terminated
cancel pick invite uas none call = request_terminated pick invite uas none none call
cancel pick invite uas (some uac) call =
    let (to_callee, uac') = cancel_leg uac in
    if not uac.done && uac.stuck
    then record { to_callee = to_callee; uac = some uac'; served = blocked; call = call }
    else request_terminated pick invite uas to_callee (some uac') call

-- `mediate`, where the caller's transaction is done.
unfoldable pub on_caller_done : InviteClientTx → Option SipRequest × InviteClientTx
unfolding cancel_leg
on_caller_done uac = cancel_leg uac

-- `mediate`, after 32 seconds without a response.
unfoldable pub on_timeout :
    Bool → SipRequest → Transaction → InviteClientTx → Served × InviteClientTx
unfolding reply build_response terminate
on_timeout pick invite uas uac =
    (reply pick (build_response (pos 408) (codes "Request Timeout") invite []) uas, terminate uac)

-- The transaction of a BYE, where there is one to be sent; an error is only logged.
started : SipServer → Result (Transaction × SipServer) → Result (Option Transaction × SipServer)
started s (ok (t, s')) = ok (some t, s')
started s (err reason) = ok (none, s)
started s panic = panic

unfoldable pub start_bye :
    Bytes → SipServer → Option SipRequest → Result (Option Transaction × SipServer)
unfolding started new_client_tx
start_bye proto s none = ok (none, s)
start_bye proto s (some bye) = started s (new_client_tx bye proto s)

-- One leg of `Disconnect`: the BYE is made only where the leg has a dialog.
unfoldable pub disconnect_leg :
    Bytes → Bytes → Result (Option SipRequest) → SipServer → Result (Option Transaction × SipServer)
unfolding start_bye
disconnect_leg dialog_id proto bye s =
    if is_nil dialog_id then ok (none, s) else (bye >>= start_bye proto s)

-- The INVITE of a leg and the last response to it.
pub record LegState : Type 0 where
  pub leg : Leg
  pub invite : SipRequest
  pub last_response : Option SipResponse

pub record Disconnection : Type 0 where
  pub to_callee : Option Transaction
  pub to_caller : Option Transaction
  pub server : SipServer
  pub call : Call

-- The BYE to the callee; `uac` is `none` where this leg was never made.
unfoldable pub callee_leg :
    Option LegState → Call → SipServer → Result (Option Transaction × SipServer)
unfolding disconnect_leg create_bye_for_uac_leg
callee_leg none call s = ok (none, s)
callee_leg (some u) call s =
    disconnect_leg call.uac_dialog_id u.leg.proto
      (create_bye_for_uac_leg u.leg u.invite u.last_response) s

-- The BYE to the caller.
unfoldable pub caller_leg : LegState → Call → SipServer → Result (Option Transaction × SipServer)
unfolding disconnect_leg create_bye_for_uas_leg
caller_leg u call s =
    disconnect_leg call.uas_dialog_id u.leg.proto
      (create_bye_for_uas_leg u.leg u.invite u.last_response) s

-- `Disconnect`
unfoldable pub disconnect : Option LegState → LegState → Call → SipServer → Result Disconnection
unfolding callee_leg caller_leg cleanup
disconnect uac uas call s = callee_leg uac call s >>= λ first.
    caller_leg uas call first.1 >>= λ second.
    ok
      (record { to_callee = first.0; to_caller = second.0; server = second.1; call = cleanup call })
