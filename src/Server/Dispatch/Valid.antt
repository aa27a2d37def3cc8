-- ===== src/Server/Dispatch/Valid.antt =====
-- What holds of each transaction by itself, whichever of the four it is, and that messages keep it.
use xylitol.Base.{Bool, true, Bytes, Result, ok, err, panic, ◌≡◌, refl, ◌∙◌, arith}
use xylitol.Sip.Message.{SipRequest, SipResponse}
use xylitol.Tx.InviteServer.{new_invite_server_tx}
use xylitol.Tx.NonInviteServer.{new_non_invite_server_tx}
use xylitol.Tx.InviteServer
use xylitol.Tx.NonInviteServer
use xylitol.Tx.InviteClient
use xylitol.Tx.NonInviteClient
use xylitol.Tx.InviteServer.Diagram.{new_invite_server_tx-IsValid}
use xylitol.Tx.InviteServer.Diagram
use xylitol.Tx.NonInviteServer.Respond.{new_non_invite_server_tx-IsValid}
use xylitol.Tx.NonInviteServer.Respond
use xylitol.Server.State.{
  Transaction, invite_client, invite_server, non_invite_client, non_invite_server, id,
}
use xylitol.Server.Dispatch.{receive_in, receive_response_in, as_invite, as_non_invite}

-- The two server transactions are valid; `done` of a client transaction is closed only in its last
-- state, in which `done` of a non-INVITE one is always closed.
abbrev pub IsValid : Transaction → Type 0
IsValid (invite_client tx) = tx.done ≡ true → tx.state ≡ InviteClient.terminated
IsValid (invite_server tx) = InviteServer.Diagram.IsValid tx
IsValid (non_invite_client tx) =
    (tx.done ≡ true → tx.state ≡ NonInviteClient.terminated)
    × (tx.state ≡ NonInviteClient.terminated → tx.done ≡ true)
IsValid (non_invite_server tx) = NonInviteServer.Respond.IsValid tx

pub step-invite_client-IsValid :
    (e : InviteClient.Event) (tx : InviteClient.InviteClientTx)
    → IsValid (invite_client tx)
    → IsValid (invite_client (InviteClient.step e tx))
unfolding InviteClient.step
step-invite_client-IsValid e tx h = ground arith

pub step-non_invite_client-IsValid :
    (e : NonInviteClient.Event) (tx : NonInviteClient.NonInviteClientTx)
    → IsValid (non_invite_client tx)
    → IsValid (non_invite_client (NonInviteClient.step e tx))
unfolding NonInviteClient.step
step-non_invite_client-IsValid e tx h = ground arith

receive_in-IsValid :
    (written : Bool) (req : SipRequest) (tx : Transaction)
    → IsValid tx
    → IsValid (receive_in written req tx)
unfolding receive_in InviteServer.step NonInviteServer.step
receive_in-IsValid written req (invite_server tx) h =
    InviteServer.Diagram.step-IsValid (InviteServer.received written req) tx h
receive_in-IsValid written req (non_invite_server tx) h =
    NonInviteServer.Respond.step-IsValid (NonInviteServer.received written) tx h
receive_in-IsValid written req (invite_client tx) h = h
receive_in-IsValid written req (non_invite_client tx) h = h

receive_response_in-IsValid :
    (written : Bool) (res : SipResponse) (tx : Transaction)
    → IsValid tx
    → IsValid (receive_response_in written res tx)
unfolding receive_response_in InviteClient.step NonInviteClient.step
receive_response_in-IsValid written res (invite_client tx) h =
    step-invite_client-IsValid (InviteClient.received written res) tx h
receive_response_in-IsValid written res (non_invite_client tx) h =
    step-non_invite_client-IsValid (NonInviteClient.received res) tx h
receive_response_in-IsValid written res (invite_server tx) h = h
receive_response_in-IsValid written res (non_invite_server tx) h = h

id-receive_in :
    (written : Bool) (req : SipRequest) (tx : Transaction) → id (receive_in written req tx) ≡ id tx
unfolding receive_in id InviteServer.receive NonInviteServer.receive
id-receive_in written req (invite_server tx) = ground arith
id-receive_in written req (non_invite_server tx) = ground arith
id-receive_in written req (invite_client tx) = refl
id-receive_in written req (non_invite_client tx) = refl

id-receive_response_in :
    (written : Bool) (res : SipResponse) (tx : Transaction)
    → id (receive_response_in written res tx) ≡ id tx
unfolding receive_response_in id InviteClient.receive_response NonInviteClient.receive_response
id-receive_response_in written res (invite_client tx) = ground arith
id-receive_response_in written res (non_invite_client tx) = ground arith
id-receive_response_in written res (invite_server tx) = refl
id-receive_response_in written res (non_invite_server tx) = refl

-- The transaction is valid and stored under its own branch.
abbrev pub IsEntry : Bytes → Transaction → Type 0
IsEntry key tx = (id tx ≡ key) × IsValid tx

pub receive_in-IsEntry :
    (written : Bool) (req : SipRequest) (key : Bytes) (tx : Transaction)
    → IsEntry key tx
    → IsEntry key (receive_in written req tx)
receive_in-IsEntry written req key tx (e, valid) =
    (id-receive_in written req tx ∙ e, receive_in-IsValid written req tx valid)

pub receive_response_in-IsEntry :
    (written : Bool) (res : SipResponse) (key : Bytes) (tx : Transaction)
    → IsEntry key tx
    → IsEntry key (receive_response_in written res tx)
receive_response_in-IsEntry written res key tx (e, valid) =
    (id-receive_response_in written res tx ∙ e, receive_response_in-IsValid written res tx valid)

-- A transaction that a constructor returns is valid.
abbrev pub IsValidNew : Result Transaction → Type 0
IsValidNew (ok tx) = IsValid tx
IsValidNew (err e) = Unit
IsValidNew panic = Unit

as_invite-IsValid :
    (t : Result InviteServer.InviteServerTx)
    → ((tx : InviteServer.InviteServerTx) → t ≡ ok tx → InviteServer.Diagram.IsValid tx)
    → IsValidNew (as_invite t)
as_invite-IsValid (ok tx) h = h tx refl
as_invite-IsValid (err e) h = tt
as_invite-IsValid panic h = tt

pub new_invite-IsValid :
    (written : Bool) (req : SipRequest) (proto : Bytes)
    → IsValidNew (as_invite (new_invite_server_tx written req proto))
new_invite-IsValid written req proto =
    as_invite-IsValid (new_invite_server_tx written req proto)
      (new_invite_server_tx-IsValid written req proto)

as_non_invite-IsValid :
    (t : Result NonInviteServer.NonInviteServerTx)
    → ((tx : NonInviteServer.NonInviteServerTx) → t ≡ ok tx → NonInviteServer.Respond.IsValid tx)
    → IsValidNew (as_non_invite t)
as_non_invite-IsValid (ok tx) h = h tx refl
as_non_invite-IsValid (err e) h = tt
as_non_invite-IsValid panic h = tt

pub new_non_invite-IsValid :
    (req : SipRequest) (proto : Bytes)
    → IsValidNew (as_non_invite (new_non_invite_server_tx req proto))
new_non_invite-IsValid req proto =
    as_non_invite-IsValid (new_non_invite_server_tx req proto)
      (new_non_invite_server_tx-IsValid req proto)
