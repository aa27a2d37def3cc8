-- ===== src/Server/Serve.antt =====
-- `handleTransaction`: what the server does with the request of a new server transaction; and
-- `NewClientTx`, `NewSIPServer` and `GetGuidanceSettings`.
pub mod Answers
use xylitol.Base.{
  ℕ, ◌||◌, Bool, true, false, [], ◌∷◌, Option, none, some, if◌then◌else◌, Bytes, codes, equal, pos,
  Result, ok, err, panic, ◌>>=◌,
}
use xylitol.Dict.{Dict, insert}
use xylitol.Sip.Message.{SipRequest, SipResponse, copy_entries}
use xylitol.Sip.Build.{build_response}
use xylitol.Tx.Common.{Outcome}
use xylitol.Tx.InviteClient.{new_invite_client_tx}
use xylitol.Tx.NonInviteClient.{new_non_invite_client_tx}
use xylitol.Tx.InviteServer
use xylitol.Tx.NonInviteServer
use xylitol.Server.Registrar.{Services, Draw, handle_register}
use xylitol.Server.State.{
  Transaction, invite_client, invite_server, non_invite_client, non_invite_server, add, id, is_done,
  SipServer, new_transaction_manager,
}
use xylitol.Server.Dispatch.{method_is, method_not_allowed}
use xylitol.Server.Invite.{InviteAction, to_dialog, responded, guidance, bridged, handle_invite}

-- What becomes of the transaction.
pub data Served : Type 0 where
  replied : Transaction → Outcome → SipResponse → Served  -- `srvTx.Respond(res)`
  handed_over : Transaction → InviteAction → Served  -- a B2BUA or the guidance application owns it
  over : Served  -- `Done` came first
  blocked : Served

-- The channel `Requests()` of a server transaction.
unfoldable pub request_of : Transaction → Option SipRequest
request_of (invite_server tx) = tx.requests
request_of (non_invite_server tx) = tx.requests
request_of _ = none

unfoldable pub take_request : Transaction → Transaction
take_request (invite_server tx) = invite_server (record tx { requests = none })
take_request (non_invite_server tx) = non_invite_server (record tx { requests = none })
take_request tx = tx

-- `pick` is that of the two `Respond` methods. A client transaction has no such method.
unfoldable pub reply : Bool → SipResponse → Transaction → Served
unfolding InviteServer.respond NonInviteServer.respond
reply pick res (invite_server tx) =
    let (tx', outcome) = InviteServer.respond pick res tx in replied (invite_server tx') outcome res
reply pick res (non_invite_server tx) =
    let (tx', outcome) = NonInviteServer.respond pick res tx in
    replied (non_invite_server tx') outcome res
reply pick res tx = blocked

-- Behind `handleInvite`: a new B2BUA, with the number `b`, is stored under the transaction.
unfoldable pub after_invite : Bool → ℕ → Transaction → SipServer × InviteAction → SipServer × Served
unfolding reply insert id
after_invite pick b tx (s, responded res) = (s, reply pick res tx)
after_invite pick b tx (s, bridged contact) =
    (record s { b2bua_by_tx = insert (id tx) b s.b2bua_by_tx }, handed_over tx (bridged contact))
after_invite pick b tx (s, action) = (s, handed_over tx action)

unfoldable pub serve_request :
    Services → Draw → Bool → ℕ → Transaction → SipRequest → SipServer → Result (SipServer × Served)
unfolding handle_register handle_invite after_invite reply method_not_allowed equal
serve_request services draw pick b tx req s =
    if method_is (codes "REGISTER") req
    then (handle_register services draw req s.registrar
        >>= (λ registered. ok (record s { registrar = registered.0 }, reply pick registered.1 tx)))
    else if method_is (codes "INVITE") req || method_is (codes "UPDATE") req
    then ok (after_invite pick b tx (handle_invite draw.now req s))
    else ok (s, reply pick (method_not_allowed req) tx)

-- `handleTransaction`: where a request is there and `done` is closed, Go picks one of the two;
-- `takes`
-- is `true` for the request.
unfoldable pub handle_transaction :
    Services → Draw → Bool → Bool → ℕ → Transaction → SipServer → Result (SipServer × Served)
unfolding serve_request request_of take_request is_done
handle_transaction services draw pick takes b tx s = elim (request_of tx) [
  | none ↦ ok (s, if is_done tx then over else blocked)
  | some req ↦
      if is_done tx
      then if takes
        then serve_request services draw pick b (take_request tx) req s
        else ok (s, over)
      else serve_request services draw pick b (take_request tx) req s
]

-- The constructor that the method asks for.
unfoldable pub client_tx_of : SipRequest → Bytes → Result Transaction
unfolding new_invite_client_tx new_non_invite_client_tx equal
client_tx_of req proto =
    if method_is (codes "INVITE") req || method_is (codes "UPDATE") req
    then (new_invite_client_tx req proto >>= (λ t. ok (invite_client t)))
    else (new_non_invite_client_tx req proto >>= (λ t. ok (non_invite_client t)))

-- `NewClientTx`
unfoldable pub new_client_tx : SipRequest → Bytes → SipServer → Result (Transaction × SipServer)
unfolding client_tx_of add
new_client_tx req proto s =
    client_tx_of req proto >>= λ t. ok (t, record s { transactions = add t s.transactions })

-- `NewSIPServer`; the address is set by `Run`.
unfoldable pub new_sip_server : Bytes → Dict Bytes → SipServer
new_sip_server realm settings = record {
  registrar = record { realm = realm; registrations = []; nonces = [] };
  transactions = new_transaction_manager;
  dialogs = [];
  b2bua_by_tx = [];
  sessions = [];
  guidance_settings = settings;
  listen_addr = [];
  listen_host = [];
  listen_port = [];
}

-- `GetGuidanceSettings`: a copy.
unfoldable pub get_guidance_settings : SipServer → Dict Bytes
unfolding copy_entries
get_guidance_settings s = copy_entries s.guidance_settings
