-- ===== src/Tests/Data.antt =====
-- The messages, transactions and servers of the examples.
use xylitol.Base.{ℕ, [], ◌∷◌, none, some, true, false, Bytes, codes, pos}
use xylitol.Sip.Message.{SipRequest, SipResponse}
use xylitol.Tx.Common.{unset, armed}
use xylitol.Tx.InviteClient
use xylitol.Tx.InviteServer
use xylitol.Tx.NonInviteClient
use xylitol.Tx.NonInviteServer

abbrev pub invite_text : Bytes
invite_text =
    codes
      "INVITE sip:bob@go-sip-server SIP/2.0\r\nVia: SIP/2.0/UDP 10.0.0.1:5060;branch=z9hG4bKaa\r\nFrom: <sip:alice@h>;tag=a1\r\nTo: <sip:bob@go-sip-server>\r\nCall-ID: c1\r\nCSeq: 1 INVITE\r\nContact: <sip:alice@10.0.0.1>\r\ncontent-length: 4\r\n\r\nv=0\nextra"

abbrev pub invite : SipRequest
invite = record {
  method = codes "INVITE";
  uri = codes "sip:bob@go-sip-server";
  proto = codes "SIP/2.0";
  headers =
      (codes "Via", codes "SIP/2.0/UDP 10.0.0.1:5060;branch=z9hG4bKaa")
      ∷ (codes "From", codes "<sip:alice@h>;tag=a1")
      ∷ (codes "To", codes "<sip:bob@go-sip-server>")
      ∷ (codes "Call-ID", codes "c1")
      ∷ (codes "CSeq", codes "1 INVITE")
      ∷ (codes "Contact", codes "<sip:alice@10.0.0.1>")
      ∷ (codes "Content-Length", codes "4")
      ∷ [];
  authorization = [];
  body = codes "v=0\n";
}

abbrev pub ack : SipRequest
ack = record {
  method = codes "ACK";
  uri = invite.uri;
  proto = invite.proto;
  headers = invite.headers;
  authorization = [];
  body = [];
}

abbrev response_of : ℕ → SipResponse
response_of n = record {
  proto = codes "SIP/2.0";
  status_code = pos n;
  reason = codes "R";
  headers = (codes "Via", codes "SIP/2.0/UDP h;branch=z9hG4bKaa") ∷ [];
  body = codes "v=0";
}

abbrev pub ringing : SipResponse
ringing = response_of 180

abbrev pub answer : SipResponse
answer = response_of 200

abbrev pub busy : SipResponse
busy = response_of 486

-- Transactions over UDP, before their first event.
abbrev pub invite_client : InviteClient.InviteClientTx
invite_client = record {
  id = codes "z9hG4bKaa";
  original_request = invite;
  state = InviteClient.calling;
  stuck = false;
  timer_a = unset;
  timer_b = unset;
  timer_d = unset;
  done = false;
  responses = none;
  waiting = [];
  proto = codes "UDP";
  sent = [];
  last_response = none;
}

abbrev pub request_client : NonInviteClient.NonInviteClientTx
request_client = record {
  id = codes "z9hG4bKaa";
  original_request = invite;
  state = NonInviteClient.trying;
  stuck = false;
  timer_e = unset;
  timer_f = unset;
  timer_k = unset;
  done = false;
  responses = none;
  waiting = [];
  proto = codes "UDP";
  sent = [];
  last_response = none;
}

abbrev pub invite_server : InviteServer.InviteServerTx
invite_server = record {
  id = codes "z9hG4bKaa";
  original_req = invite;
  last_response = none;
  state = InviteServer.proceeding;
  stuck = false;
  timer_g = unset;
  timer_h = unset;
  timer_i = unset;
  lost_timers_g = 0;
  lost_timers_h = 0;
  done = false;
  responses = some busy;
  requests = none;
  running = true;
  proto = codes "UDP";
  sent = [];
}

-- With a final response, retransmitted until the ACK.
abbrev pub rejecting_server : InviteServer.InviteServerTx
rejecting_server = record invite_server {
  last_response = some busy;
  state = InviteServer.completed;
  responses = none;
  timer_g = armed 500;
  timer_h = armed 32000;
}

abbrev pub request_server : NonInviteServer.NonInviteServerTx
request_server = record {
  id = codes "z9hG4bKaa";
  original_req = invite;
  last_response = none;
  state = NonInviteServer.trying;
  stuck = false;
  timer_j = unset;
  done = false;
  responses = some answer;
  requests = none;
  running = true;
  proto = codes "UDP";
  sent = [];
}

abbrev pub answered_server : NonInviteServer.NonInviteServerTx
answered_server = record request_server {
  last_response = some answer;
  state = NonInviteServer.completed;
  responses = none;
  timer_j = armed 32000;
}
