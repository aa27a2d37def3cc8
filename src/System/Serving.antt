-- ===== src/System/Serving.antt =====
-- `handleTransaction` within the running server: the transaction that it leaves.
use xylitol.Base.{
  ℕ, Option, none, some, ◌||◌, Bool, true, false, if◌then◌else◌, Bytes, codes, Result, ok, err,
  panic, ◌>>=◌, ◌≡◌, refl, sym, subst, ◌∙◌, arith, inl, inr, Option-cases,
}
use xylitol.Dict.{lookup}
use xylitol.Sip.Message.{SipRequest, SipResponse}
use xylitol.Tx.InviteServer
use xylitol.Tx.NonInviteServer
use xylitol.Tx.InviteServer.Diagram
use xylitol.Tx.NonInviteServer.Respond
use xylitol.Server.Registrar.{Services, Draw, Registrar, handle_register}
use xylitol.Server.State.{
  Transaction, Transactions, invite_client, invite_server, non_invite_client, non_invite_server, id,
  is_done, SipServer,
}
use xylitol.Server.Dispatch.{method_is, method_not_allowed}
use xylitol.Server.Dispatch.Valid.{IsEntry}
use xylitol.Server.Dispatch.Sound.{IsSound, IsSound-insert}
use xylitol.Server.Invite.{InviteAction, to_dialog, responded, guidance, bridged, handle_invite}
use xylitol.Server.Invite.Shrinks.{handle_invite-Keeps}
use xylitol.Server.Serve.{
  Served, replied, handed_over, over, blocked, request_of, take_request, reply, after_invite,
  serve_request, handle_transaction,
}
use xylitol.System.{put_back, write_contacts, called_user, serve_invite, invite_of, serve}

-- The transaction that comes out, if any.
abbrev pub IsServedEntry : Bytes → Served → Type 0
IsServedEntry key (replied tx outcome res) = IsEntry key tx
IsServedEntry key (handed_over tx action) = IsEntry key tx
IsServedEntry key _ = Unit

id-respond_invite :
    (pick : Bool) (res : SipResponse) (tx : InviteServer.InviteServerTx)
    → (InviteServer.respond pick res tx).0.id ≡ tx.id
unfolding InviteServer.respond
id-respond_invite pick res tx = ground arith

id-respond :
    (pick : Bool) (res : SipResponse) (tx : NonInviteServer.NonInviteServerTx)
    → (NonInviteServer.respond pick res tx).0.id ≡ tx.id
unfolding NonInviteServer.respond
id-respond pick res tx = ground arith

reply-IsServedEntry :
    (key : Bytes) (pick : Bool) (res : SipResponse) (tx : Transaction)
    → IsEntry key tx
    → IsServedEntry key (reply pick res tx)
unfolding reply InviteServer.step NonInviteServer.step id
reply-IsServedEntry key pick res (invite_server tx) (e, valid) = (
  id-respond_invite pick res tx ∙ e,
  InviteServer.Diagram.step-IsValid (InviteServer.responded pick res) tx valid,
)
reply-IsServedEntry key pick res (non_invite_server tx) (e, valid) = (
  id-respond pick res tx ∙ e,
  NonInviteServer.Respond.step-IsValid (NonInviteServer.responded pick res) tx valid,
)
reply-IsServedEntry key pick res (invite_client tx) h = tt
reply-IsServedEntry key pick res (non_invite_client tx) h = tt

take_request-IsEntry :
    (key : Bytes) (tx : Transaction) → IsEntry key tx → IsEntry key (take_request tx)
unfolding take_request id
take_request-IsEntry key (invite_server tx) (e, valid) = (e, ground arith)
take_request-IsEntry key (non_invite_server tx) (e, valid) = (e, ground arith)
take_request-IsEntry key (invite_client tx) h = h
take_request-IsEntry key (non_invite_client tx) h = h

-- Beside the transaction, the transactions stay.
abbrev pub IsServing : Bytes → Transactions → SipServer × Served → Type 0
IsServing key d (s, served) = (s.transactions ≡ d) × IsServedEntry key served

abbrev pub IsServingIn : Bytes → Transactions → Result (SipServer × Served) → Type 0
IsServingIn key d (ok r) = IsServing key d r
IsServingIn key d (err e) = Unit
IsServingIn key d panic = Unit

after_invite-IsServing :
    (key : Bytes) (pick : Bool) (b : ℕ) (tx : Transaction) (r : SipServer × InviteAction)
    → IsEntry key tx
    → IsServing key r.0.transactions (after_invite pick b tx r)
unfolding after_invite
after_invite-IsServing key pick b tx (s, responded res) h =
    (refl, reply-IsServedEntry key pick res tx h)
after_invite-IsServing key pick b tx (s, bridged contact) h = (refl, h)
after_invite-IsServing key pick b tx (s, to_dialog n) h = (refl, h)
after_invite-IsServing key pick b tx (s, guidance file) h = (refl, h)

registered-IsServing :
    (key : Bytes) (pick : Bool) (tx : Transaction) (s : SipServer)
    (m : Result (Registrar × SipResponse))
    → IsEntry key tx
    → IsServingIn key s.transactions (
        m
        >>= (λ registered. ok (record s { registrar = registered.0 }, reply pick registered.1 tx)))
registered-IsServing key pick tx s (ok (r, res)) h = (refl, reply-IsServedEntry key pick res tx h)
registered-IsServing key pick tx s (err e) h = tt
registered-IsServing key pick tx s panic h = tt

if-IsServingIn :
    (key : Bytes) (d : Transactions) (b : Bool) (x y : Result (SipServer × Served))
    → IsServingIn key d x
    → IsServingIn key d y
    → IsServingIn key d (if b then x else y)
if-IsServingIn key d true x y h h' = h
if-IsServingIn key d false x y h h' = h'

serve_request-IsServingIn :
    (services : Services) (draw : Draw) (pick : Bool) (b : ℕ) (key : Bytes) (tx : Transaction)
    (req : SipRequest) (s : SipServer)
    → IsEntry key tx
    → IsServingIn key s.transactions (serve_request services draw pick b tx req s)
unfolding serve_request
serve_request-IsServingIn services draw pick b key tx req s h =
    if-IsServingIn key s.transactions (method_is (codes "REGISTER") req) _ _
      (registered-IsServing key pick tx s (handle_register services draw req s.registrar) h)
      (if-IsServingIn key s.transactions
        (method_is (codes "INVITE") req || method_is (codes "UPDATE") req) _ _
        (subst (λ d. IsServing key d (after_invite pick b tx (handle_invite draw.now req s)))
          (handle_invite-Keeps draw.now req s).same_transactions
          (after_invite-IsServing key pick b tx (handle_invite draw.now req s) h))
        (refl, reply-IsServedEntry key pick (method_not_allowed req) tx h))

over_or_blocked-IsServedEntry :
    (key : Bytes) (b : Bool) → IsServedEntry key (if b then over else blocked)
over_or_blocked-IsServedEntry key true = tt
over_or_blocked-IsServedEntry key false = tt

handle_transaction-IsServingIn :
    (services : Services) (draw : Draw) (pick takes : Bool) (b : ℕ) (key : Bytes) (tx : Transaction)
    (s : SipServer)
    → IsEntry key tx
    → IsServingIn key s.transactions (handle_transaction services draw pick takes b tx s)
unfolding handle_transaction
handle_transaction-IsServingIn services draw pick takes b key tx s h =
    elim (Option-cases (request_of tx)) [
      | inl e ↦ rw (e, handle_transaction) (refl, over_or_blocked-IsServedEntry key (is_done tx))
      | inr (req, e) ↦
          let served =
            serve_request-IsServingIn services draw pick b key (take_request tx) req s
              (take_request-IsEntry key tx h) in
          rw (e, handle_transaction)
            (if-IsServingIn key s.transactions (is_done tx) _ _
              (if-IsServingIn key s.transactions takes _ _ served (refl, tt)) served)
    ]

put_back-IsSound :
    (key : Bytes) (d : Transactions) (r : SipServer × Served)
    → IsSound d
    → IsServing key d r
    → IsSound (put_back key r).transactions
unfolding put_back
put_back-IsSound key d (s, replied tx outcome res) h (same, entry) =
    IsSound-insert key tx s.transactions entry (subst IsSound (sym same) h)
put_back-IsSound key d (s, handed_over tx action) h (same, entry) =
    IsSound-insert key tx s.transactions entry (subst IsSound (sym same) h)
put_back-IsSound key d (s, over) h (same, entry) = subst IsSound (sym same) h
put_back-IsSound key d (s, blocked) h (same, entry) = subst IsSound (sym same) h

-- Where a step has a result, the transactions of the server are sound.
abbrev pub IsSoundIn : Result SipServer → Type 0
IsSoundIn (ok s) = IsSound s.transactions
IsSoundIn (err e) = Unit
IsSoundIn panic = Unit

put_back-IsSoundIn :
    (key : Bytes) (d : Transactions) (m : Result (SipServer × Served))
    → IsSound d
    → IsServingIn key d m
    → IsSoundIn (m >>= λ r. ok (put_back key r))
put_back-IsSoundIn key d (ok r) h served = put_back-IsSound key d r h served
put_back-IsSoundIn key d (err e) h served = tt
put_back-IsSoundIn key d panic h served = tt

transactions-write_contacts :
    (now : ℕ) (user : Option Bytes) (seen s : SipServer)
    → (write_contacts now user seen s).transactions ≡ s.transactions
unfolding write_contacts
transactions-write_contacts now none seen s = refl
transactions-write_contacts now (some user) seen s =
    elim (Option-cases (lookup user seen.registrar.registrations)) [
      | inl e ↦ rw (e, write_contacts) refl
      | inr (regs, e) ↦ rw (e, write_contacts) refl
    ]

serve_invite-IsServing :
    (key : Bytes) (pick : Bool) (b : ℕ) (tx : Transaction) (now : ℕ) (req : SipRequest)
    (seen s : SipServer)
    → IsEntry key tx
    → IsServing key s.transactions (serve_invite pick b tx now req seen s)
unfolding serve_invite
serve_invite-IsServing key pick b tx now req seen s h =
    let written = write_contacts now (called_user req seen) seen s in
    let action = (handle_invite now req seen).1 in
    subst (λ d. IsServing key d (after_invite pick b tx (written, action)))
      (transactions-write_contacts now (called_user req seen) seen s)
      (after_invite-IsServing key pick b tx (written, action) h)

pub serve-IsSoundIn :
    (services : Services) (draw : Draw) (pick takes : Bool) (b : ℕ) (key : Bytes)
    (seen s : SipServer)
    → IsSound s.transactions
    → IsSoundIn (serve services draw pick takes b key seen s)
unfolding serve
serve-IsSoundIn services draw pick takes b key seen s h =
    elim (Option-cases (lookup key s.transactions)) [
      | inl e ↦ rw (e, serve) h
      | inr (tx, e) ↦ elim (Option-cases (invite_of takes tx)) [
        | inr (req, i) ↦
            rw (e, i, serve)
              (put_back-IsSound key s.transactions
                (serve_invite pick b (take_request tx) draw.now req seen s) h
                (serve_invite-IsServing key pick b (take_request tx) draw.now req seen s
                  (take_request-IsEntry key tx (h.entry key tx e))))
        | inl i ↦
            rw (e, i, serve)
              (put_back-IsSoundIn key s.transactions
                (handle_transaction services draw pick takes b tx s) h
                (handle_transaction-IsServingIn services draw pick takes b key tx s
                  (h.entry key tx e)))
      ]
    ]
