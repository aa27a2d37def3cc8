-- ===== src/Server/Dispatch/Kept.antt =====
-- What `dispatchMessage` keeps: its transactions are valid and stay under their own branches, and
-- nothing but the transactions changes.
use xylitol.Base.{
  ◌||◌, true, false, if◌then◌else◌, Bool, Option, some, Bytes, Result, ok, err, panic, ◌≡◌, refl,
  subst, inl, inr, ℕ, Bool-cases, Option-cases, Result-cases, codes,
}
use xylitol.Text.{has_prefix}
use xylitol.Dict.{lookup}
use xylitol.Sip.Message.{SipRequest, SipResponse}
use xylitol.Sip.Request.{parse_sip_request}
use xylitol.Sip.Response.{parse_sip_response}
use xylitol.Sip.Via.{top_via, response_top_via, branch}
use xylitol.Tx.InviteServer.{new_invite_server_tx}
use xylitol.Tx.NonInviteServer.{new_non_invite_server_tx}
use xylitol.Tx.InviteServer
use xylitol.Server.State.{Transaction, invite_server, non_invite_server, add, SipServer, id}
use xylitol.Tx.NonInviteServer.Respond.{new_non_invite_server_tx-IsValid}
use xylitol.Server.Dispatch.Valid.{
  IsValid, IsValidNew, new_invite-IsValid, new_non_invite-IsValid, receive_in-IsEntry,
  receive_response_in-IsEntry,
}
use xylitol.Server.Dispatch.{
  method_is, Action, receive_in, receive_response_in, add_transaction, start, give_ack,
  handle_cancel, handle_ack, new_request, by_branch, handle_stateful, outside_dialog, route,
  handle_request, pass_response, is_loop, dialog_of, handle_response, dispatch_message,
  start_in_dialog, as_invite, as_non_invite,
}
use xylitol.Server.Dispatch.Sound.{IsSound, Follows, Follows-insert}

add_transaction-Follows :
    {s0 : SipServer} (tx : Transaction) (s : SipServer)
    → IsValid tx
    → Follows s0 s
    → Follows s0 (add_transaction tx s)
unfolding add_transaction add
add_transaction-Follows tx s valid h = Follows-insert (id tx) tx s (refl, valid) h

start-Follows :
    {s0 : SipServer} (tx : Result Transaction) (s : SipServer)
    → IsValidNew tx
    → Follows s0 s
    → Follows s0 (start tx s).0
unfolding start
start-Follows (ok tx) s valid h = add_transaction-Follows tx s valid h
start-Follows (err e) s valid h = h
start-Follows panic s valid h = h

start_in_dialog-Follows :
    {s0 : SipServer} (b : ℕ) (proto : Bytes) (req : SipRequest) (s : SipServer)
    → Follows s0 s
    → Follows s0 (start_in_dialog b proto req s).0
unfolding start_in_dialog
start_in_dialog-Follows b proto req s h = elim (Result-cases (new_non_invite_server_tx req proto)) [
  | inl (tx, e) ↦
      rw (e, start_in_dialog)
        (add_transaction-Follows (non_invite_server tx) s
          (new_non_invite_server_tx-IsValid req proto tx e) h)
  | inr (inl (_, e)) ↦ rw (e, start_in_dialog) h
  | inr (inr e) ↦ rw (e, start_in_dialog) h
]

if-Follows :
    {s0 : SipServer} (b : Bool) (x y : SipServer × Action)
    → Follows s0 x.0
    → Follows s0 y.0
    → Follows s0 (if b then x else y).0
if-Follows true x y hx hy = hx
if-Follows false x y hx hy = hy

new_request-Follows :
    {s0 : SipServer} (written : Bool) (proto : Bytes) (req : SipRequest) (s : SipServer)
    → Follows s0 s
    → Follows s0 (new_request written proto req s).0
unfolding new_request
new_request-Follows written proto req s h =
    let invite = method_is (codes "INVITE") req || method_is (codes "UPDATE") req in
    if-Follows (method_is (codes "REGISTER") req || method_is (codes "BYE") req) _ _
      (start-Follows (as_non_invite (new_non_invite_server_tx req proto)) s
        (new_non_invite-IsValid req proto) h)
      (if-Follows invite _ _
        (start-Follows (as_invite (new_invite_server_tx written req proto)) s
          (new_invite-IsValid written req proto) h)
        h)

by_branch-Follows :
    {s0 : SipServer} (written : Bool) (proto : Bytes) (req : SipRequest) (key : Bytes)
    (s : SipServer)
    → Follows s0 s
    → Follows s0 (by_branch written proto req key (lookup key s.transactions) s).0
unfolding by_branch
by_branch-Follows written proto req key s h = elim (Option-cases (lookup key s.transactions)) [
  | inl e ↦ rw e (new_request-Follows written proto req s h)
  | inr (tx, e) ↦ rw e (
      Follows-insert key (receive_in written req tx) s
        (receive_in-IsEntry written req key tx (h.sound.entry key tx e)) h)
]

handle_stateful-Follows :
    {s0 : SipServer} (written : Bool) (proto : Bytes) (req : SipRequest) (s : SipServer)
    → Follows s0 s
    → Follows s0 (handle_stateful written proto req s).0
unfolding handle_stateful
handle_stateful-Follows written proto req s h = elim (Result-cases (top_via req)) [
  | inl (via, e) ↦
      rw (e, handle_stateful)
        (if-Follows (has_prefix (codes "z9hG4bK") (branch via)) _ _
          (by_branch-Follows written proto req (branch via) s h) h)
  | inr (inl (_, e)) ↦ rw (e, handle_stateful) h
  | inr (inr e) ↦ rw (e, handle_stateful) h
]

give_ack-Follows :
    {s0 : SipServer} (written : Bool) (req : SipRequest) (key : Bytes) (s : SipServer)
    (o : Option Transaction)
    → lookup key s.transactions ≡ o
    → Follows s0 s
    → Follows s0 (give_ack written req key o s).0
unfolding give_ack receive_in
give_ack-Follows written req key s (some (invite_server tx)) e h =
    Follows-insert key (invite_server (InviteServer.receive written req tx)) s
      (receive_in-IsEntry written req key (invite_server tx)
        (h.sound.entry key (invite_server tx) e))
      h
give_ack-Follows written req key s _ e h = h

handle_ack-Follows :
    {s0 : SipServer} (written : Bool) (req : SipRequest) (s : SipServer)
    → Follows s0 s
    → Follows s0 (handle_ack written req s).0
unfolding handle_ack
handle_ack-Follows written req s h = elim (Result-cases (top_via req)) [
  | inl (via, e) ↦
      rw (e, handle_ack)
        (give_ack-Follows written req (branch via) s (lookup (branch via) s.transactions) refl h)
  | inr (inl (_, e)) ↦ rw (e, handle_ack) h
  | inr (inr e) ↦ rw (e, handle_ack) h
]

handle_cancel-Follows :
    {s0 : SipServer} (req : SipRequest) (s : SipServer)
    → Follows s0 s
    → Follows s0 (handle_cancel req s).0
unfolding handle_cancel
handle_cancel-Follows req s h = elim (Result-cases (top_via req)) [
  | inl (via, e) ↦ rw (e, handle_cancel) h
  | inr (inl (_, e)) ↦ rw (e, handle_cancel) h
  | inr (inr e) ↦ rw (e, handle_cancel) h
]

outside_dialog-Follows :
    {s0 : SipServer} (written : Bool) (proto : Bytes) (req : SipRequest) (s : SipServer)
    → Follows s0 s
    → Follows s0 (outside_dialog written proto req s).0
unfolding outside_dialog
outside_dialog-Follows written proto req s h =
    if-Follows (method_is (codes "CANCEL") req) _ _ (handle_cancel-Follows req s h) (
      if-Follows (method_is (codes "ACK") req) _ _ (handle_ack-Follows written req s h)
        (handle_stateful-Follows written proto req s h))

route-Follows :
    {s0 : SipServer} (written : Bool) (proto : Bytes) (req : SipRequest) (s : SipServer)
    → Follows s0 s
    → Follows s0 (route written proto req s).0
unfolding route
route-Follows written proto req s h = elim (Bool-cases (is_loop s req)) [
  | inl e ↦ rw (e, route) h
  | inr e ↦ elim (Option-cases (dialog_of req s)) [
    | inl e' ↦ rw (e, e', route) (outside_dialog-Follows written proto req s h)
    | inr (b, e') ↦ rw (e, e', route) (start_in_dialog-Follows b proto req s h)
  ]
]

pass_response-Follows :
    {s0 : SipServer} (written : Bool) (res : SipResponse) (key : Bytes) (s : SipServer)
    → Follows s0 s
    → Follows s0 (pass_response written res key s)
unfolding pass_response
pass_response-Follows written res key s h = elim (Option-cases (lookup key s.transactions)) [
  | inl e ↦ rw (e, pass_response) h
  | inr (tx, e) ↦
      rw (e, pass_response)
        (Follows-insert key (receive_response_in written res tx) s
          (receive_response_in-IsEntry written res key tx (h.sound.entry key tx e)) h)
]

handle_response-Follows :
    {s0 : SipServer} (written : Bool) (raw : Bytes) (s : SipServer)
    → Follows s0 s
    → Follows s0 (handle_response written raw s)
unfolding handle_response
handle_response-Follows written raw s h = elim (Result-cases (parse_sip_response raw)) [
  | inl (res, e) ↦ elim (Result-cases (response_top_via res)) [
    | inl (via, e') ↦
        rw (e, e', handle_response) (pass_response-Follows written res (branch via) s h)
    | inr (inl (_, e')) ↦ rw (e, e', handle_response) h
    | inr (inr e') ↦ rw (e, e', handle_response) h
  ]
  | inr (inl (_, e)) ↦ rw (e, handle_response) h
  | inr (inr e) ↦ rw (e, handle_response) h
]

FollowsOutcome : SipServer → Result (SipServer × Action) → Type 0
FollowsOutcome s0 (ok (s, a)) = Follows s0 s
FollowsOutcome s0 _ = Unit

handle_request-Follows :
    {s0 : SipServer} (written : Bool) (proto raw : Bytes) (s : SipServer)
    → Follows s0 s
    → FollowsOutcome s0 (handle_request written proto raw s)
unfolding handle_request FollowsOutcome
handle_request-Follows written proto raw s h = elim (Result-cases (parse_sip_request raw)) [
  | inl (req, e) ↦ rw (e, handle_request) (route-Follows written proto req s h)
  | inr (inl (_, e)) ↦ rw (e, handle_request) h
  | inr (inr e) ↦ rw (e, handle_request) tt
]

dispatch_message-FollowsOutcome :
    {s0 : SipServer} (written : Bool) (proto raw : Bytes) (s : SipServer)
    → Follows s0 s
    → FollowsOutcome s0 (dispatch_message written proto raw s)
unfolding dispatch_message FollowsOutcome
dispatch_message-FollowsOutcome written proto raw s h =
    elim (Bool-cases (has_prefix (codes "SIP/2.0") raw)) [
      | inl e ↦ rw (e, dispatch_message) (handle_response-Follows written raw s h)
      | inr e ↦ rw (e, dispatch_message) (handle_request-Follows written proto raw s h)
    ]

dispatch_message-Follows :
    {s0 : SipServer} (written : Bool) (proto raw : Bytes) (s s' : SipServer) (a : Action)
    → dispatch_message written proto raw s ≡ ok (s', a)
    → Follows s0 s
    → Follows s0 s'
unfolding FollowsOutcome
dispatch_message-Follows {s0} written proto raw s s' a h k =
    subst (FollowsOutcome s0) h (dispatch_message-FollowsOutcome written proto raw s k)

-- Whatever message comes in, request or response: each transaction stays under its own branch,
-- where a later message with this branch finds it, and stays valid; and nothing but the
-- transactions of the server changes.
pub dispatch_message-IsSound :
    (written : Bool) (proto raw : Bytes) (s s' : SipServer) (a : Action)
    → dispatch_message written proto raw s ≡ ok (s', a)
    → IsSound s.transactions
    → IsSound s'.transactions × (s' ≡ record s { transactions = s'.transactions })
dispatch_message-IsSound written proto raw s s' a h k =
    let f : Follows s s' =
      dispatch_message-Follows written proto raw s s' a h (record { sound = k; only = refl }) in
    (f.sound, f.only)

-- The same of `handleStateful` behind its look-up.
pub new_request-IsSound :
    (written : Bool) (proto : Bytes) (req : SipRequest) (s : SipServer)
    → IsSound s.transactions
    → IsSound (new_request written proto req s).0.transactions
new_request-IsSound written proto req s k =
    let f : Follows s (new_request written proto req s).0 =
      new_request-Follows written proto req s (record { sound = k; only = refl }) in
    f.sound
