-- ===== src/Tests/Ends.antt =====
-- The ends of calls, new transactions, and the answer of the guidance application.
use xylitol.Base.{
  ℕ, [], ◌∷◌, none, some, true, false, Bytes, codes, equal, pos, Result, ok, ◌≡◌, ◌≢◌, refl,
}
use xylitol.Sip.Message.{SipResponse}
use xylitol.Sip.Build.{build_response, create_cancel_request}
use xylitol.Transport.Tcp.{new_tcp_transport}
use xylitol.Transport.{tcp, get_proto}
use xylitol.Server.State.{Transaction, SipServer}
use xylitol.Server.State
use xylitol.Server.Registrar.{Services, Draw, not_found}
use xylitol.Server.Calls.{CallView}
use xylitol.Server.Serve.{new_sip_server, request_of, handle_transaction}
use xylitol.Server.Serve.Answers.{AnsweredIn, IsReplied, handle_transaction-AnsweredIn}
use xylitol.B2bua.Life.{Call, mediating, cleanup}
use xylitol.B2bua.Ending.{LegState, Disconnection, cancel, disconnect}
use xylitol.B2bua.Ending.Cancelled.{cancel_lem}
use xylitol.B2bua.Ending.Disconnected.{
  AreDistinct, IsStored, CalleeSpec, CallerSpec, disconnect_lem,
}
use xylitol.Guidance.{Media, run, send_bye}
use xylitol.Guidance.Answer.{IsOffered, run-IsOffered, send_bye-tcp}
use xylitol.Tests.Data.{invite, answer, invite_client, invite_server}

abbrev server : SipServer
server = new_sip_server (codes "h") []

abbrev fresh : Transaction
fresh = State.invite_server (record invite_server { responses = none; requests = some invite })

abbrev services : Services
services = record { md5hash = λ text. text; get_user_by_username = λ name. not_found }

abbrev draw : Draw
draw = record { now = 500; date = codes "today"; nonce = codes "n" }

handle_transaction-AnsweredIn_example :
    AnsweredIn (handle_transaction services draw true true 1 fresh server)
unfolding request_of
handle_transaction-AnsweredIn_example =
    handle_transaction-AnsweredIn services draw true true 1 fresh invite server refl (refl, refl)

abbrev call : Call
call = record {
  self = 1;
  phase = mediating;
  done = false;
  uas_tx_id = codes "z9hG4bKaa";
  uas_dialog_id = codes "c1:a:b";
  uac_dialog_id = codes "c2:c:d";
  dialogs = [];
  b2bua_by_tx = [];
}

cancel_lem_example :
    (let ended = cancel true invite fresh (some invite_client) call in
      (ended.to_callee ≡ some (create_cancel_request invite))
      × IsReplied (build_response (pos 487) (codes "Request Terminated") invite []) ended.served
      × (ended.call ≡ cleanup call))
cancel_lem_example = cancel_lem true invite fresh invite_client call refl (refl, refl)

abbrev with_contact : SipResponse
with_contact = record answer { headers = (codes "Contact", codes "sip:bob@x") ∷ answer.headers }

abbrev leg_of : Bytes → LegState
leg_of branch = record {
  leg = record {
    proto = codes "UDP";
    listen_addr = codes "h";
    branch = branch;
    call_id = [];
    tag = [];
  };
  invite = invite;
  last_response = some with_contact;
}

abbrev callee_leg : LegState
callee_leg = leg_of (codes "z9hG4bK1")

abbrev caller_leg : LegState
caller_leg = leg_of (codes "z9hG4bK2")

abbrev or_unchanged : Result Disconnection → Disconnection
or_unchanged (ok d) = d
or_unchanged _ = record { to_callee = none; to_caller = none; server = server; call = call }

abbrev disconnected : Disconnection
disconnected = or_unchanged (disconnect (some callee_leg) caller_leg call server)

runs_through : disconnect (some callee_leg) caller_leg call server ≡ ok disconnected
unfolding disconnect equal
runs_through = refl

distinct : AreDistinct disconnected.to_callee disconnected.to_caller
unfolding disconnect equal State.id
distinct = refl

disconnect_lem_example :
    (disconnected.call ≡ cleanup call)
    × CalleeSpec (some callee_leg) call disconnected.to_callee
    × CallerSpec caller_leg call disconnected.to_caller
    × IsStored disconnected.to_callee disconnected.server
    × IsStored disconnected.to_caller disconnected.server
disconnect_lem_example =
    disconnect_lem (some callee_leg) caller_leg call server disconnected runs_through distinct

-- One call.
abbrev calls : ℕ → CallView
calls b = record { original_request = some invite; uas_dialog_id = codes "u"; start_time = 0 }

abbrev media : Media
media = record {
  registers_codec = true;
  connects = true;
  makes_track = true;
  adds_track = true;
  accepts_offer = true;
  answer = some (codes "v=0");
  accepts_answer = true;
}

answers : (run invite (codes "t") media).1.status_code ≡ pos 200
unfolding run equal
answers = refl

run-IsOffered_example :
    IsOffered media (run invite (codes "t") media).0 (run invite (codes "t") media).1
run-IsOffered_example = run-IsOffered invite (codes "t") media answers

send_bye-tcp_example :
    (send_bye
      (λ host port. some host)
      invite
      (get_proto (tcp (new_tcp_transport (codes "10.0.0.1"))))
      (codes "z9hG4bKb")
      (run invite (codes "t") media).0
      server).1
    ≢ ok (tcp (new_tcp_transport []), (fresh, server))
send_bye-tcp_example =
    send_bye-tcp (λ host port. some host) invite (codes "10.0.0.1") (codes "z9hG4bKb")
      (run invite (codes "t") media).0 server (tcp (new_tcp_transport []), (fresh, server))
