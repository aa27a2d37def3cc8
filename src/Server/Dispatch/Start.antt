-- ===== src/Server/Dispatch/Start.antt =====
-- When `handleRequest` starts a transaction.
use xylitol.Base.{
  Bool, true, false, Option, none, some, Bytes, equal_refl, Result, ok, err, panic, ◌≡◌, refl, sym,
  ◌∙◌, ap, arith,
}
use xylitol.Dict.{lookup, lookup-insert}
use xylitol.Sip.Message.{SipRequest}
use xylitol.Sip.Via.{Via, top_via, branch}
use xylitol.Tx.InviteServer.{new_invite_server_tx}
use xylitol.Tx.NonInviteServer.{new_non_invite_server_tx}
use xylitol.Server.State.{Transaction, add, SipServer, id}
use xylitol.Server.Dispatch.{
  started, start, add_transaction, new_request, by_branch, handle_stateful, as_invite,
  as_non_invite,
}

start-started :
    (t : Result Transaction) (s s' : SipServer) (tx : Transaction)
    → start t s ≡ (s', started tx)
    → (t ≡ ok tx) × (add_transaction tx s ≡ s')
unfolding start
start-started (ok t) s s' tx h = (cc, cc)
start-started (err e) s s' tx h = cc
start-started panic s s' tx h = cc

id-as_invite :
    (written : Bool) (proto : Bytes) (req : SipRequest) (via : Via) (tx : Transaction)
    → top_via req ≡ ok via
    → as_invite (new_invite_server_tx written req proto) ≡ ok tx
    → id tx ≡ branch via
unfolding new_invite_server_tx id
id-as_invite true proto req via tx e h = ground arith
id-as_invite false proto req via tx e h = ground arith

id-as_non_invite :
    (proto : Bytes) (req : SipRequest) (via : Via) (tx : Transaction)
    → top_via req ≡ ok via
    → as_non_invite (new_non_invite_server_tx req proto) ≡ ok tx
    → id tx ≡ branch via
unfolding new_non_invite_server_tx id
id-as_non_invite proto req via tx e h = ground arith

new_request-started :
    (written : Bool) (proto : Bytes) (req : SipRequest) (via : Via) (s s' : SipServer)
    (tx : Transaction)
    → top_via req ≡ ok via
    → new_request written proto req s ≡ (s', started tx)
    → (id tx ≡ branch via) × (add_transaction tx s ≡ s')
unfolding new_request
new_request-started written proto req via s s' tx e h = ground (
  arith,
  start-started (as_non_invite (new_non_invite_server_tx req proto)) s s' tx,
  start-started (as_invite (new_invite_server_tx written req proto)) s s' tx,
  id-as_invite written proto req via tx e,
  id-as_non_invite proto req via tx e,
)

lookup-add_transaction :
    (tx : Transaction) (s : SipServer)
    → lookup (id tx) (add_transaction tx s).transactions ≡ some tx
unfolding add_transaction add
lookup-add_transaction tx s =
    lookup-insert (id tx) (id tx) tx s.transactions ∙ rw (equal_refl (id tx)) refl

by_branch-started :
    (written : Bool) (proto : Bytes) (req : SipRequest) (via : Via) (o : Option Transaction)
    (s s' : SipServer) (tx : Transaction)
    → top_via req ≡ ok via
    → lookup (branch via) s.transactions ≡ o
    → by_branch written proto req (branch via) o s ≡ (s', started tx)
    → (lookup (id tx) s.transactions ≡ none) × (lookup (id tx) s'.transactions ≡ some tx)
unfolding by_branch
by_branch-started written proto req via none s s' tx e free h =
    let (keyed, added) = new_request-started written proto req via s s' tx e h in
    (
      ap (λ key. lookup key s.transactions) keyed ∙ free,
      ap (λ server. lookup (id tx) server.transactions) (sym added) ∙ lookup-add_transaction tx s,
    )
by_branch-started written proto req via (some t) s s' tx e taken h = cc

-- Where no other step comes between the look-up and the addition of `handleStateful`: a request
-- that it is given starts a transaction only where the server has none with its branch, and the new
-- transaction is then the one that the server finds under that branch. A request within a dialog
-- does not come here, and starts one without a look-up.
pub handle_stateful-started :
    (written : Bool) (proto : Bytes) (req : SipRequest) (via : Via) (s s' : SipServer)
    (tx : Transaction)
    → top_via req ≡ ok via
    → handle_stateful written proto req s ≡ (s', started tx)
    → (lookup (id tx) s.transactions ≡ none) × (lookup (id tx) s'.transactions ≡ some tx)
unfolding handle_stateful
handle_stateful-started written proto req via s s' tx e h = ground (
  arith,
  by_branch-started written proto req via (lookup (branch via) s.transactions) s s' tx e refl,
)
