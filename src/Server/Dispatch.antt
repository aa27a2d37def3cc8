-- ===== src/Server/Dispatch.antt =====
-- `handleRequest`, `handleResponse`, `handleCancel` and `handleStateless`.
--
-- `written` is the outcome of the write, if any, that the step makes; `proto` is the protocol of
-- the
-- transport on which the message came.
pub mod Valid
pub mod Sound
pub mod Kept
pub mod Start
use xylitol.Base.{
  ℕ, ◌&&◌, ◌||◌, not, Bool, true, false, List, [], ◌∷◌, Option, none, some, if◌then◌else◌, Bytes,
  codes, equal, is_nil, ℤ, pos, Error, Result, ok, err, panic, ◌>>=◌,
}
use xylitol.Text.{has_prefix}
use xylitol.Dict.{Dict, lookup, insert}
use xylitol.Sip.Message.{SipRequest, SipResponse, get_header}
use xylitol.Sip.Via.{Via, all_vias, top_via, response_top_via, branch}
use xylitol.Sip.Fields.{get_tag}
use xylitol.Sip.Build.{build_response}
use xylitol.Sip.Request.{parse_sip_request}
use xylitol.Sip.Response.{parse_sip_response}
use xylitol.Tx.InviteServer.{new_invite_server_tx}
use xylitol.Tx.NonInviteServer.{new_non_invite_server_tx}
use xylitol.Tx.InviteServer
use xylitol.Tx.NonInviteServer
use xylitol.Tx.InviteClient
use xylitol.Tx.NonInviteClient
use xylitol.Server.Sessions.{get_dialog_id}
use xylitol.Server.State.{
  Transaction, invite_client, invite_server, non_invite_client, non_invite_server, Transactions,
  add, get, SipServer,
}

-- What the server does with a request, beside the change of its state.
pub data Action : Type 0 where
  ignored : Action  -- logged only
  answered : SipResponse → Action  -- written to the transport, without a transaction
  in_dialog : ℕ → Transaction → Action  -- `HandleInDialogRequest` of a B2BUA
  cancelled : SipResponse → Option ℕ → Action  -- the 200 written, and the B2BUA to cancel
  acknowledged : Action  -- an ACK given to its transaction
  retransmitted : Action  -- given to its server transaction
  started : Transaction → Action  -- `handleTransaction` on a new transaction

-- The address of the sender in a Via value; the port is 5060 where it is left out.
unfoldable pub is_own_via : SipServer → Via → Bool
unfolding equal
is_own_via s via =
    equal via.host s.listen_host
    && equal (if is_nil via.port then codes "5060" else via.port) s.listen_port

unfoldable pub has_own_via : SipServer → List Via → Bool
unfolding is_own_via
has_own_via s [] = false
has_own_via s (via ∷ vias) = is_own_via s via || has_own_via s vias

-- Loop detection is left out where a Via value cannot be parsed.
unfoldable pub is_loop : SipServer → SipRequest → Bool
unfolding all_vias has_own_via
is_loop s req =
    let (vias, failed) = all_vias req in elim failed [ none ↦ has_own_via s vias | some e ↦ false ]

unfoldable pub request_dialog_id : SipRequest → Bytes
unfolding get_dialog_id get_header get_tag
request_dialog_id req =
    get_dialog_id (get_header (codes "Call-ID") req) (get_tag (get_header (codes "From") req))
      (get_tag (get_header (codes "To") req))

abbrev pub method_is : Bytes → SipRequest → Bool
method_is method req = equal req.method method

-- `handleStateless`
unfoldable pub method_not_allowed : SipRequest → SipResponse
unfolding build_response
method_not_allowed req = build_response (pos 405) (codes "Method Not Allowed") req []

add_transaction : Transaction → SipServer → SipServer
unfolding add
add_transaction tx s = record s { transactions = add tx s.transactions }

-- A request of an existing dialog, in a transaction of its own.
start_in_dialog : ℕ → Bytes → SipRequest → SipServer → SipServer × Action
unfolding new_non_invite_server_tx add_transaction
start_in_dialog b proto req s = elim (new_non_invite_server_tx req proto) [
  | ok tx ↦ (add_transaction (non_invite_server tx) s, in_dialog b (non_invite_server tx))
  | _ ↦ (s, ignored)
]

-- `handleCancel`: the 200 is written in any case.
unfoldable pub handle_cancel : SipRequest → SipServer → SipServer × Action
unfolding build_response top_via branch lookup
handle_cancel req s =
    let res200 = build_response (pos 200) (codes "OK") req [] in
    elim (top_via req) [
      | ok via ↦ (s, cancelled res200 (lookup (branch via) s.b2bua_by_tx))
      | _ ↦ (s, cancelled res200 none)
    ]

-- An ACK outside any dialog goes to the INVITE server transaction of its branch.
give_ack : Bool → SipRequest → Bytes → Option Transaction → SipServer → SipServer × Action
unfolding insert InviteServer.receive
give_ack written req branch_id (some (invite_server tx)) s = (
  record s {
    transactions =
        insert branch_id (invite_server (InviteServer.receive written req tx)) s.transactions;
  },
  acknowledged,
)
give_ack written req branch_id _ s = (s, ignored)

unfoldable pub handle_ack : Bool → SipRequest → SipServer → SipServer × Action
unfolding give_ack top_via branch lookup
handle_ack written req s = elim (top_via req) [
  | ok via ↦ give_ack written req (branch via) (get (branch via) s.transactions) s
  | _ ↦ (s, ignored)
]

-- `srvTx.Receive(req)` on the transaction of a retransmission; a client transaction receives none.
unfoldable pub receive_in : Bool → SipRequest → Transaction → Transaction
unfolding InviteServer.receive NonInviteServer.receive
receive_in written req (invite_server tx) = invite_server (InviteServer.receive written req tx)
receive_in written req (non_invite_server tx) =
    non_invite_server (NonInviteServer.receive written tx)
receive_in written req tx = tx

start : Result Transaction → SipServer → SipServer × Action
unfolding add_transaction
start (ok tx) s = (add_transaction tx s, started tx)
start _ s = (s, ignored)

abbrev pub as_invite : Result InviteServer.InviteServerTx → Result Transaction
as_invite tx = tx >>= λ t. ok (invite_server t)

abbrev pub as_non_invite : Result NonInviteServer.NonInviteServerTx → Result Transaction
as_non_invite tx = tx >>= λ t. ok (non_invite_server t)

-- The `switch` on the method of a new request.
unfoldable pub new_request : Bool → Bytes → SipRequest → SipServer → SipServer × Action
unfolding start method_not_allowed new_invite_server_tx new_non_invite_server_tx equal
new_request written proto req s =
    if method_is (codes "REGISTER") req || method_is (codes "BYE") req
    then start (as_non_invite (new_non_invite_server_tx req proto)) s
    else if method_is (codes "INVITE") req || method_is (codes "UPDATE") req
    then start (as_invite (new_invite_server_tx written req proto)) s
    else (s, answered (method_not_allowed req))

by_branch : Bool → Bytes → SipRequest → Bytes → Option Transaction → SipServer → SipServer × Action
unfolding new_request receive_in insert
by_branch written proto req branch_id none s = new_request written proto req s
by_branch written proto req branch_id (some tx) s = (
  record s { transactions = insert branch_id (receive_in written req tx) s.transactions },
  retransmitted,
)

-- Every method but CANCEL and ACK, outside a dialog: a retransmission or a new request.
unfoldable pub handle_stateful : Bool → Bytes → SipRequest → SipServer → SipServer × Action
unfolding by_branch method_not_allowed top_via branch lookup has_prefix
handle_stateful written proto req s = elim (top_via req) [
  | ok via ↦
      if has_prefix (codes "z9hG4bK") (branch via)
      then by_branch written proto req (branch via) (get (branch via) s.transactions) s
      else (s, answered (method_not_allowed req))
  | _ ↦ (s, ignored)
]

outside_dialog : Bool → Bytes → SipRequest → SipServer → SipServer × Action
unfolding handle_cancel handle_ack handle_stateful equal
outside_dialog written proto req s =
    if method_is (codes "CANCEL") req
    then handle_cancel req s
    else if method_is (codes "ACK") req
    then handle_ack written req s
    else handle_stateful written proto req s

dialog_of : SipRequest → SipServer → Option ℕ
unfolding lookup request_dialog_id equal
dialog_of req s =
    if method_is (codes "INVITE") req then none else lookup (request_dialog_id req) s.dialogs

unfoldable pub route : Bool → Bytes → SipRequest → SipServer → SipServer × Action
unfolding is_loop dialog_of start_in_dialog outside_dialog build_response
route written proto req s =
    if is_loop s req
    then (s, answered (build_response (pos 482) (codes "Loop Detected") req []))
    else elim (dialog_of req s) [
      | some b ↦ start_in_dialog b proto req s
      | none ↦ outside_dialog written proto req s
    ]

unfoldable pub handle_request : Bool → Bytes → Bytes → SipServer → Result (SipServer × Action)
unfolding parse_sip_request route
handle_request written proto raw s = elim (parse_sip_request raw) [
  | ok req ↦ ok (route written proto req s)
  | err e ↦ ok (s, ignored)
  | panic ↦ panic
]

-- `clientTx.ReceiveResponse(res)`; a server transaction receives no response.
unfoldable pub receive_response_in : Bool → SipResponse → Transaction → Transaction
unfolding InviteClient.receive_response NonInviteClient.receive_response
receive_response_in written res (invite_client tx) =
    invite_client (InviteClient.receive_response written res tx)
receive_response_in written res (non_invite_client tx) =
    non_invite_client (NonInviteClient.receive_response res tx)
receive_response_in written res tx = tx

pass_response : Bool → SipResponse → Bytes → SipServer → SipServer
unfolding receive_response_in lookup insert
pass_response written res branch_id s = elim (get branch_id s.transactions) [
  | none ↦ s
  | some tx ↦ record s {
    transactions = insert branch_id (receive_response_in written res tx) s.transactions;
  }
]

unfoldable pub handle_response : Bool → Bytes → SipServer → SipServer
unfolding pass_response parse_sip_response response_top_via branch
handle_response written raw s = elim (parse_sip_response raw) [
  | ok res ↦ elim (response_top_via res) [
    | ok via ↦ pass_response written res (branch via) s
    | _ ↦ s
  ]
  | _ ↦ s
]

-- `dispatchMessage`
unfoldable pub dispatch_message : Bool → Bytes → Bytes → SipServer → Result (SipServer × Action)
unfolding handle_response handle_request has_prefix
dispatch_message written proto raw s =
    if has_prefix (codes "SIP/2.0") raw
    then ok (handle_response written raw s, ignored)
    else handle_request written proto raw s
