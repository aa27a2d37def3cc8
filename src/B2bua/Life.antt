-- ===== src/B2bua/Life.antt =====
-- The life of a call: its dialogs in the server's maps, `cleanup`, in-dialog requests, and the
-- channel `done`.
pub mod End
use xylitol.Base.{
  ℕ, ◌&&◌, ◌||◌, not, Bool, true, false, List, [], ◌∷◌, Option, none, some, if◌then◌else◌, Bytes,
  codes, equal, is_nil, pos, Result, ok, err, panic, ◌>>=◌,
}
use xylitol.Dict.{Dict, lookup, insert, delete}
use xylitol.Sip.Message.{SipRequest, SipResponse}
use xylitol.Transport.{Transport, write}
use xylitol.Transport.Socket.{Written}
use xylitol.Sip.Message.{print_request}
use xylitol.Sip.Build.{build_response}
use xylitol.Server.Dispatch.{request_dialog_id}
use xylitol.B2bua.Requests.{Leg, create_virtual_uac_ack, create_forwarded_request}

-- The goroutine of `Run`: in `mediate`, in `waitForDialogMessages`, or returned.
pub data Phase : Type 0 where
  mediating waiting returned : Phase

-- A B2BUA, known to the server by the number `self`, and the two maps of the server that name it.
pub record Call : Type 0 where
  pub self : ℕ
  pub phase : Phase
  pub done : Bool  -- the channel is closed
  pub uas_tx_id : Bytes
  pub uas_dialog_id : Bytes
  pub uac_dialog_id : Bytes
  pub dialogs : Dict ℕ
  pub b2bua_by_tx : Dict ℕ

-- `NewB2BUA` for a server transaction, on the maps of the server; the start time is left out.
unfoldable pub new_b2bua : ℕ → Bytes → Dict ℕ → Dict ℕ → Call
new_b2bua self uas_tx_id dialogs b2bua_by_tx = record {
  self = self;
  phase = mediating;
  done = false;
  uas_tx_id = uas_tx_id;
  uas_dialog_id = [];
  uac_dialog_id = [];
  dialogs = dialogs;
  b2bua_by_tx = b2bua_by_tx;
}

unfoldable pub establish_dialogs : Bytes → Bytes → Call → Call
unfolding insert
establish_dialogs uas_id uac_id c = record c {
  uas_dialog_id = uas_id;
  uac_dialog_id = uac_id;
  dialogs = insert uac_id c.self (insert uas_id c.self c.dialogs);
}

delete_dialog : Bytes → Dict ℕ → Dict ℕ
unfolding delete
delete_dialog dialog_id dialogs = if is_nil dialog_id then dialogs else delete dialog_id dialogs

-- `cleanup` closes `done` unless it is closed.
unfoldable pub cleanup : Call → Call
unfolding delete_dialog delete
cleanup c = record c {
  dialogs = delete_dialog c.uac_dialog_id (delete_dialog c.uas_dialog_id c.dialogs);
  b2bua_by_tx = delete c.uas_tx_id c.b2bua_by_tx;
  done = true;
}

-- The return of `Run`, with its deferred `close(b.done)`: closing a closed channel panics.
unfoldable pub run_returns : Call → Result Call
run_returns c = if c.done then panic else ok (record c { phase = returned; done = true })

-- What happens to a call: a 2xx response, the return of `mediate` after any other end, a call of
-- `cleanup` (BYE, CANCEL and Disconnect), and the end of `waitForDialogMessages`.
pub data CallEvent : Type 0 where
  established : Bytes → Bytes → CallEvent
  mediated cleaned_up woken : CallEvent

in_phase : Phase → CallEvent → Call → Result Call
unfolding establish_dialogs cleanup run_returns
in_phase phase cleaned_up c = ok (cleanup c)
in_phase mediating (established uas_id uac_id) c =
    ok (record (establish_dialogs uas_id uac_id c) { phase = waiting })
in_phase mediating mediated c = run_returns c
in_phase waiting woken c = if c.done then run_returns c else ok c
in_phase phase e c = ok c

unfoldable pub step : CallEvent → Call → Result Call
unfolding in_phase
step e c = in_phase c.phase e c

unfoldable pub steps : List CallEvent → Call → Result Call
steps [] c = ok c
steps (e ∷ es) c = step e c >>= λ c'. steps es c'

-- What an in-dialog request brings about beside `cleanup`: the response to it, and what is written
-- to the callee.
pub record Relayed : Type 0 where
  pub reply : Option SipResponse
  pub to_callee : Option SipRequest
  pub cleans_up : Bool

nothing : Relayed
nothing = record { reply = none; to_callee = none; cleans_up = false }

ok_response : SipRequest → SipResponse
unfolding build_response
ok_response req = build_response (pos 200) (codes "OK") req []

-- The ACK for the callee, on the INVITE of its leg and the last response to it.
relay_ack : Leg → SipRequest → Option SipResponse → Relayed
unfolding create_virtual_uac_ack nothing
relay_ack leg invite none = nothing
relay_ack leg invite (some res) = record {
  reply = none;
  to_callee = create_virtual_uac_ack leg invite res;
  cleans_up = false;
}

-- From the caller.
unfoldable pub handle_virtual_uas_request :
    Leg → SipRequest → Option SipResponse → SipRequest → Call → Relayed
unfolding relay_ack ok_response create_forwarded_request nothing equal
handle_virtual_uas_request leg invite last req c =
    if equal req.method (codes "ACK")
    then relay_ack leg invite last
    else if equal req.method (codes "BYE")
    then record {
      reply = some (ok_response req);
      to_callee = some (create_forwarded_request req c.uac_dialog_id);
      cleans_up = true;
    }
    else nothing

-- From the callee: its BYE is answered, and no request goes to the caller.
unfoldable pub handle_virtual_uac_request : SipRequest → Relayed
unfolding ok_response nothing equal
handle_virtual_uac_request req =
    if equal req.method (codes "BYE")
    then record { reply = some (ok_response req); to_callee = none; cleans_up = true }
    else nothing

unfoldable pub handle_in_dialog_request :
    Leg → SipRequest → Option SipResponse → SipRequest → Call → Relayed
unfolding request_dialog_id handle_virtual_uas_request handle_virtual_uac_request equal
handle_in_dialog_request leg invite last req c =
    if equal (request_dialog_id req) c.uas_dialog_id
    then handle_virtual_uas_request leg invite last req c
    else handle_virtual_uac_request req

-- `sendRequestOnVirtualUACLeg`: what is written to the transport of the callee's transaction, whose
-- outcome `Write` returns and the code drops.
unfoldable pub send_request_on_virtual_uac_leg : SipRequest → Written → Transport → Bytes × Result ℕ
unfolding print_request write
send_request_on_virtual_uac_leg req w transport =
    let text = print_request req in (text, write text w transport)
