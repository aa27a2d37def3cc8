-- ===== src/Tests/Running.antt =====
-- A server that takes a REGISTER off the network and serves it.
use xylitol.Base.{
  ◌∷◌, some, none, Bool, true, false, [], ◌++◌, Bytes, codes, Result, ok, err, panic, ◌≡◌, refl,
}
use xylitol.Server.Registrar.{credentials, digest_matches, accept}
use xylitol.Server.Nonces.{validate_nonce}
use xylitol.Server.State.{SipServer}
use xylitol.Server.Dispatch.Sound.{IsSound}
use xylitol.System.{ServerEvent, message, serves, server_step, here, next}
use xylitol.System.Sound.{Reach-IsSound}
use xylitol.Server.State.{Transaction}
use xylitol.Server.State
use xylitol.Tests.Data.{invite, invite_server}
use xylitol.Tests.Registering

abbrev idle_server : SipServer
idle_server = record {
  registrar = Registering.registrar;
  transactions = [];
  dialogs = [];
  b2bua_by_tx = [];
  sessions = [];
  guidance_settings = [];
  listen_addr = codes "10.0.0.9:5060";
  listen_host = codes "10.0.0.9";
  listen_port = codes "5060";
}

abbrev register_text : Bytes → Bytes
register_text branch =
    codes "REGISTER sip:h SIP/2.0\r\nVia: SIP/2.0/UDP x;branch="
    ++ branch
    ++ (codes
          "\r\nTo: <sip:a@h>\r\nContact: <sip:a@x>\r\nExpires: 60\r\nAuthorization: Digest username=\"a\", "
        ++ codes "nonce=\"n1\", uri=\"sip:h\", response=\"p:n1:REGISTER:sip:h\"\r\n\r\n")

abbrev arrival_of : Bytes → ServerEvent
arrival_of branch = message true (codes "UDP") (register_text branch)

abbrev service_of : Bytes → ServerEvent
service_of branch = serves Registering.services Registering.draw true true 1 branch idle_server

abbrev arrival : ServerEvent
arrival = arrival_of (codes "z9hG4bKr")

abbrev service : ServerEvent
service = service_of (codes "z9hG4bKr")

abbrev state_of : Result SipServer → SipServer
state_of (ok s) = s
state_of _ = idle_server

abbrev arrived : SipServer
arrived = state_of (server_step arrival idle_server)

abbrev served : SipServer
served = state_of (server_step service arrived)

abbrev is_ok : Result SipServer → Bool
is_ok (ok s) = true
is_ok _ = false

ok-state_of : (m : Result SipServer) → is_ok m ≡ true → m ≡ ok (state_of m)
ok-state_of (ok s) h = refl
ok-state_of (err e) h = cc
ok-state_of panic h = cc

arrives : server_step arrival idle_server ≡ ok arrived
unfolding server_step
arrives = ok-state_of (server_step arrival idle_server) refl

serves_it : server_step service arrived ≡ ok served
unfolding server_step credentials validate_nonce digest_matches accept
serves_it = ok-state_of (server_step service arrived) refl

bound_then : served.registrar.registrations ≡ Registering.registered.registrations
unfolding server_step credentials validate_nonce digest_matches accept
bound_then = refl

Reach-IsSound_example : IsSound served.transactions
Reach-IsSound_example =
    Reach-IsSound {s0 = idle_server} {s = served} refl
      (next service (next arrival here arrives) serves_it)

-- A new INVITE for a registered user.
abbrev new_call : Transaction
new_call = State.invite_server (record invite_server { responses = none; requests = some invite })

abbrev invited : SipServer
invited = record idle_server {
  registrar = Registering.registered;
  transactions = (codes "z9hG4bKi", new_call) ∷ [];
}
