-- ===== src/System/Sound.antt =====
-- The invariant of the transaction manager over everything that the running server does.
use xylitol.Base.{
  ◌||◌, Bool, true, false, [], if◌then◌else◌, Bytes, codes, Result, ok, err, panic, ◌>>=◌, ◌≡◌,
  refl, subst, ◌∙◌, inl, inr, arith, Bool-cases, Option-cases, Result-cases,
}
use xylitol.Dict.{lookup}
use xylitol.Sip.Message.{SipRequest}
use xylitol.Tx.InviteClient.{InviteClientTx, new_invite_client_tx}
use xylitol.Tx.NonInviteClient.{NonInviteClientTx, new_non_invite_client_tx}
use xylitol.Tx.InviteClient
use xylitol.Tx.InviteServer
use xylitol.Tx.NonInviteClient
use xylitol.Tx.NonInviteServer
use xylitol.Tx.InviteServer.Diagram
use xylitol.Tx.NonInviteServer.Respond
use xylitol.Server.State.{
  Transaction, invite_client, invite_server, non_invite_client, non_invite_server, id, is_done,
  remove, add, SipServer,
}
use xylitol.Server.Dispatch.Valid.{
  IsValid, IsValidNew, step-invite_client-IsValid, step-non_invite_client-IsValid,
}
use xylitol.Server.Dispatch.Sound.{IsSound, IsSound-insert, IsSound-delete}
use xylitol.Sip.Via.{top_via}
use xylitol.Server.Dispatch.{method_is}
use xylitol.Server.Serve.{client_tx_of, new_client_tx}
use xylitol.Server.State.{Transactions, update_guidance_settings}
use xylitol.Server.Dispatch.{dispatch_message}
use xylitol.Server.Dispatch.Kept.{dispatch_message-IsSound, new_request-IsSound}
use xylitol.B2bua.Life.{Call, CallEvent}
use xylitol.B2bua.Life
use xylitol.System.Serving.{IsSoundIn, serve-IsSoundIn}
use xylitol.System.{
  message, at_transaction, forgets, adds, runs, serves, new_client, at_call, session_updated,
  session_expired, settings_updated, ServerEvent, server_step, call_event, Reach, here, next,
  client_added, TxEvent, at_invite_client, at_invite_server, at_non_invite_client,
  at_non_invite_server, step_tx, transaction_event, forget,
}

run-invite_client-IsValid :
    (written : Bool) (tx : InviteClientTx)
    → IsValid (invite_client tx)
    → IsValid (invite_client (InviteClient.run written tx))
unfolding InviteClient.run
run-invite_client-IsValid written tx h = ground arith

run-non_invite_client-IsValid :
    (written : Bool) (tx : NonInviteClientTx)
    → IsValid (non_invite_client tx)
    → IsValid (non_invite_client (NonInviteClient.run written tx))
unfolding NonInviteClient.run
run-non_invite_client-IsValid written tx h = ground arith

step_tx-IsValid : (e : TxEvent) (tx : Transaction) → IsValid tx → IsValid (step_tx e tx)
unfolding step_tx
step_tx-IsValid (at_invite_client e) (invite_client tx) h = step-invite_client-IsValid e tx h
step_tx-IsValid (at_invite_server e) (invite_server tx) h = InviteServer.Diagram.step-IsValid e tx h
step_tx-IsValid (at_non_invite_client e) (non_invite_client tx) h =
    step-non_invite_client-IsValid e tx h
step_tx-IsValid (at_non_invite_server e) (non_invite_server tx) h =
    NonInviteServer.Respond.step-IsValid e tx h
step_tx-IsValid (runs written) (invite_client tx) h = run-invite_client-IsValid written tx h
step_tx-IsValid (runs written) (non_invite_client tx) h = run-non_invite_client-IsValid written tx h
step_tx-IsValid _ tx h = h

id-step-invite_client :
    (e : InviteClient.Event) (tx : InviteClientTx) → (InviteClient.step e tx).id ≡ tx.id
unfolding InviteClient.step
id-step-invite_client e tx = ground arith

id-step-invite_server :
    (e : InviteServer.Event) (tx : InviteServer.InviteServerTx)
    → (InviteServer.step e tx).id ≡ tx.id
unfolding InviteServer.step
id-step-invite_server e tx = ground arith

id-step-non_invite_client :
    (e : NonInviteClient.Event) (tx : NonInviteClientTx) → (NonInviteClient.step e tx).id ≡ tx.id
unfolding NonInviteClient.step
id-step-non_invite_client e tx = ground arith

id-step-non_invite_server :
    (e : NonInviteServer.Event) (tx : NonInviteServer.NonInviteServerTx)
    → (NonInviteServer.step e tx).id ≡ tx.id
unfolding NonInviteServer.step
id-step-non_invite_server e tx = ground arith

id-run_invite : (written : Bool) (tx : InviteClientTx) → (InviteClient.run written tx).id ≡ tx.id
unfolding InviteClient.run
id-run_invite written tx = ground arith

id-run_non_invite :
    (written : Bool) (tx : NonInviteClientTx) → (NonInviteClient.run written tx).id ≡ tx.id
unfolding NonInviteClient.run
id-run_non_invite written tx = ground arith

id-step_tx : (e : TxEvent) (tx : Transaction) → id (step_tx e tx) ≡ id tx
unfolding step_tx id
id-step_tx (at_invite_client e) (invite_client tx) = id-step-invite_client e tx
id-step_tx (at_invite_server e) (invite_server tx) = id-step-invite_server e tx
id-step_tx (at_non_invite_client e) (non_invite_client tx) = id-step-non_invite_client e tx
id-step_tx (at_non_invite_server e) (non_invite_server tx) = id-step-non_invite_server e tx
id-step_tx (runs written) (invite_client tx) = id-run_invite written tx
id-step_tx (runs written) (non_invite_client tx) = id-run_non_invite written tx
id-step_tx _ tx = refl

transaction_event-IsSound :
    (key : Bytes) (e : TxEvent) (s : SipServer)
    → IsSound s.transactions
    → IsSound (transaction_event key e s).transactions
unfolding transaction_event
transaction_event-IsSound key e s h = elim (Option-cases (lookup key s.transactions)) [
  | inl there ↦ rw (there, transaction_event) h
  | inr (tx, there) ↦
      let (same, valid) = h.entry key tx there in
      rw (there, transaction_event)
        (IsSound-insert key (step_tx e tx) s.transactions
          (id-step_tx e tx ∙ same, step_tx-IsValid e tx valid) h)
]

forget-IsSound :
    (tx : Transaction) (s : SipServer) → IsSound s.transactions → IsSound (forget tx s).transactions
unfolding forget remove
forget-IsSound tx s h = elim (Bool-cases (is_done tx)) [
  | inl e ↦ rw (e, forget, remove) (IsSound-delete (id tx) s.transactions h)
  | inr e ↦ rw (e, forget) h
]

new_invite_client_tx-IsValid :
    (req : SipRequest) (proto : Bytes)
    → IsValidNew (new_invite_client_tx req proto >>= (λ t. ok (invite_client t)))
unfolding new_invite_client_tx
new_invite_client_tx-IsValid req proto = elim (Result-cases (top_via req)) [
  | inl (via, e) ↦ rw (e, new_invite_client_tx) (λ h. absurd (cc))
  | inr (inl (_, e)) ↦ rw (e, new_invite_client_tx) tt
  | inr (inr e) ↦ rw (e, new_invite_client_tx) tt
]

new_non_invite_client_tx-IsValid :
    (req : SipRequest) (proto : Bytes)
    → IsValidNew (new_non_invite_client_tx req proto >>= (λ t. ok (non_invite_client t)))
unfolding new_non_invite_client_tx
new_non_invite_client_tx-IsValid req proto = elim (Result-cases (top_via req)) [
  | inl (via, e) ↦ rw (e, new_non_invite_client_tx) (λ h. absurd (cc), λ h. absurd (cc))
  | inr (inl (_, e)) ↦ rw (e, new_non_invite_client_tx) tt
  | inr (inr e) ↦ rw (e, new_non_invite_client_tx) tt
]

if-IsValidNew :
    (b : Bool) (t t' : Result Transaction)
    → IsValidNew t
    → IsValidNew t'
    → IsValidNew (if b then t else t')
if-IsValidNew true t t' h h' = h
if-IsValidNew false t t' h h' = h'

client_tx_of-IsValid : (req : SipRequest) (proto : Bytes) → IsValidNew (client_tx_of req proto)
unfolding client_tx_of
client_tx_of-IsValid req proto =
    if-IsValidNew (method_is (codes "INVITE") req || method_is (codes "UPDATE") req) _ _
      (new_invite_client_tx-IsValid req proto) (new_non_invite_client_tx-IsValid req proto)

client_added-IsSound :
    (t : Result Transaction) (s : SipServer)
    → IsValidNew t
    → IsSound s.transactions
    → IsSoundIn
        ((t >>= λ x. ok (x, record s { transactions = add x s.transactions })) >>= client_added)
unfolding add
client_added-IsSound (ok t) s valid h = IsSound-insert (id t) t s.transactions (refl, valid) h
client_added-IsSound (err e) s valid h = tt
client_added-IsSound panic s valid h = tt

message-IsSoundIn :
    (written : Bool) (proto raw : Bytes) (s : SipServer)
    → IsSound s.transactions
    → IsSoundIn (dispatch_message written proto raw s >>= λ r. ok r.0)
message-IsSoundIn written proto raw s h =
    elim (Result-cases (dispatch_message written proto raw s)) [
      | inl ((s', a), e) ↦ rw e (dispatch_message-IsSound written proto raw s s' a e h).0
      | inr (inl (_, e)) ↦ rw e tt
      | inr (inr e) ↦ rw e tt
    ]

call_event-IsSoundIn :
    (e : CallEvent) (c : Call) (s : SipServer)
    → IsSound s.transactions
    → IsSoundIn (call_event e c s)
unfolding call_event
call_event-IsSoundIn e c s h =
    elim (Result-cases
      (Life.step e (record c { dialogs = s.dialogs; b2bua_by_tx = s.b2bua_by_tx }))) [
        | inl (c', e') ↦ rw (e', call_event) h
        | inr (inl (_, e')) ↦ rw (e', call_event) tt
        | inr (inr e') ↦ rw (e', call_event) tt
      ]

server_step-IsSoundIn :
    (e : ServerEvent) (s : SipServer) → IsSound s.transactions → IsSoundIn (server_step e s)
unfolding server_step update_guidance_settings new_client_tx
server_step-IsSoundIn (message written proto raw) s h = message-IsSoundIn written proto raw s h
server_step-IsSoundIn (at_transaction key e) s h = transaction_event-IsSound key e s h
server_step-IsSoundIn (forgets tx) s h = forget-IsSound tx s h
server_step-IsSoundIn (adds written proto req) s h = new_request-IsSound written proto req s h
server_step-IsSoundIn (serves services draw pick takes b key seen) s h =
    serve-IsSoundIn services draw pick takes b key seen s h
server_step-IsSoundIn (new_client req proto) s h =
    client_added-IsSound (client_tx_of req proto) s (client_tx_of-IsValid req proto) h
server_step-IsSoundIn (at_call e c) s h = call_event-IsSoundIn e c s h
server_step-IsSoundIn (session_updated now res se) s h = h
server_step-IsSoundIn (session_expired dialog_id) s h = h
server_step-IsSoundIn (settings_updated settings) s h = h

empty-IsSound : (d : Transactions) → d ≡ [] → IsSound d
unfolding lookup
empty-IsSound d h = record { entry = λ key tx there. ground arith }

-- After any steps of the running server, from a server without transactions on: each transaction is
-- stored under its own branch, `done` of a server transaction is closed exactly where its state is
-- the last one, a completed one has the response to retransmit and its goroutine runs until `done`
-- is closed, and `done` of a client transaction is closed only in its last state, in which `done` of
-- a non-INVITE one is always closed.
pub Reach-IsSound : {s0 s : SipServer} → s0.transactions ≡ [] → Reach s0 s → IsSound s.transactions
Reach-IsSound {s0} h here = empty-IsSound s0.transactions h
Reach-IsSound h (next {s = s} e before is_step) =
    subst IsSoundIn is_step (server_step-IsSoundIn e s (Reach-IsSound h before))
