-- ===== src/Tests/Calls.antt =====
-- The server and the B2BUA on a call.
use xylitol.Base.{
  ◌||◌, [], ◌∷◌, none, some, true, false, if◌then◌else◌, Bytes, codes, equal, panic, ◌≡◌, refl,
}
use xylitol.Dict.{lookup}
use xylitol.Sip.Message.{SipRequest}
use xylitol.Sip.Via.{Via, top_via}
use xylitol.Tx.Common.{unset}
use xylitol.Tx.NonInviteServer
use xylitol.Server.State.{Transaction, invite_client, non_invite_server, SipServer, id}
use xylitol.Server.Dispatch.{handle_stateful}
use xylitol.Server.Dispatch.Start.{handle_stateful-started}
use xylitol.Server.Invite.{handle_invite}
use xylitol.Server.Invite.Bridge.{Callee, handle_invite-bridged}
use xylitol.B2bua.Requests.{Leg}
use xylitol.B2bua.Life.{
  mediating, Call, established, mediated, cleaned_up, woken, cleanup, steps, establish_dialogs,
}
use xylitol.B2bua.Life.End.{ended_call_panics, cleanup-establish_dialogs}
use xylitol.Tests.Data
use xylitol.Tests.Data.{invite, ack}

abbrev server : SipServer
server = record {
  registrar = record {
    realm = codes "go-sip-server";
    registrations =
        (codes "bob", record { contact_uri = codes "sip:bob@10.0.0.2"; expires_at = 1000 } ∷ [])
        ∷ [];
    nonces = [];
  };
  transactions = (codes "z9hG4bKaa", invite_client Data.invite_client) ∷ [];
  dialogs = [];
  b2bua_by_tx = [];
  sessions = [];
  guidance_settings = [];
  listen_addr = codes "10.0.0.9:5060";
  listen_host = codes "10.0.0.9";
  listen_port = codes "5060";
}

abbrev response_text : Bytes
response_text = codes "SIP/2.0 486 Busy\r\nVia: SIP/2.0/UDP h;branch=z9hG4bKaa\r\n\r\n"

abbrev bye : SipRequest
bye = record ack {
  method = codes "BYE";
  headers = (codes "Via", codes "SIP/2.0/UDP h;branch=z9hG4bKbb") ∷ [];
}

abbrev bye_via : Via
bye_via = record {
  proto = codes "SIP/2.0/UDP";
  host = codes "h";
  port = [];
  params = (codes "branch", codes "z9hG4bKbb") ∷ [];
}

abbrev bye_tx : Transaction
bye_tx = non_invite_server (record {
  id = codes "z9hG4bKbb";
  original_req = bye;
  last_response = none;
  state = NonInviteServer.trying;
  stuck = false;
  timer_j = unset;
  done = false;
  responses = none;
  requests = some bye;
  running = true;
  proto = codes "UDP";
  sent = [];
})

abbrev with_bye : SipServer
with_bye = record server {
  transactions =
      (codes "z9hG4bKaa", invite_client Data.invite_client) ∷ (codes "z9hG4bKbb", bye_tx) ∷ [];
}

handle_stateful-started_example :
    (lookup (id bye_tx) server.transactions ≡ none)
    × (lookup (id bye_tx) with_bye.transactions ≡ some bye_tx)
unfolding handle_stateful top_via
handle_stateful-started_example =
    handle_stateful-started true (codes "UDP") bye bye_via server with_bye bye_tx refl refl

handle_invite-bridged_example : Callee 500 invite server server (codes "sip:bob@10.0.0.2")
unfolding handle_invite
handle_invite-bridged_example =
    handle_invite-bridged 500 invite server server (codes "sip:bob@10.0.0.2") refl

abbrev leg : Leg
leg = record {
  proto = codes "UDP";
  listen_addr = codes "10.0.0.9:5060";
  branch = codes "z9hG4bKcc";
  call_id = codes "c2";
  tag = codes "t2";
}

abbrev call : Call
call = record {
  self = 7;
  phase = mediating;
  done = false;
  uas_tx_id = codes "z9hG4bKaa";
  uas_dialog_id = [];
  uac_dialog_id = [];
  dialogs = [];
  b2bua_by_tx = (codes "z9hG4bKaa", 7) ∷ [];
}

cleanup-establish_dialogs_example :
    let e = establish_dialogs (codes "u") (codes "v") call in
    (lookup (codes "u") e.dialogs ≡ some 7)
    × (lookup (codes "v") e.dialogs ≡ some 7)
    × ((k : Bytes)
        → lookup k (cleanup e).dialogs
          ≡ (if equal (codes "u") k || equal (codes "v") k then none else lookup k []))
    × ((k : Bytes)
        → lookup k (cleanup e).b2bua_by_tx
          ≡ (if equal (codes "z9hG4bKaa") k then none else lookup k call.b2bua_by_tx))
cleanup-establish_dialogs_example = cleanup-establish_dialogs (codes "u") (codes "v") call refl refl

abbrev cleaned_call : Call
cleaned_call = record call { done = true }

ended_call_panics_example :
    (steps (established (codes "u") (codes "v") ∷ cleaned_up ∷ woken ∷ []) call ≡ panic)
    × (steps (cleaned_up ∷ mediated ∷ []) call ≡ panic)
ended_call_panics_example = ended_call_panics (codes "u") (codes "v") call refl refl
