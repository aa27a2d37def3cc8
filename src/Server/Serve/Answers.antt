-- ===== src/Server/Serve/Answers.antt =====
-- Every new request is answered or handed over.
use xylitol.Base.{
  ℕ, ◌||◌, Bool, false, Option, none, some, codes, Result, ok, err, panic, ◌>>=◌, ◌≡◌, refl, arith,
  inl, inr, Bool-cases,
}
use xylitol.Sip.Message.{SipRequest, SipResponse}
use xylitol.Tx.Common.{accepted}
use xylitol.Tx.InviteServer
use xylitol.Tx.NonInviteServer
use xylitol.Server.Registrar.{Services, Draw, Registrar}
use xylitol.Server.State.{
  Transaction, invite_client, invite_server, non_invite_client, non_invite_server, is_done,
  SipServer,
}
use xylitol.Server.Dispatch.{method_is, method_not_allowed}
use xylitol.Server.Invite.{InviteAction, to_dialog, responded, guidance, bridged, handle_invite}
use xylitol.Server.Serve.{
  Served, replied, handed_over, request_of, take_request, reply, after_invite, serve_request,
  handle_transaction,
}

-- The channel of responses.
abbrev pub response_of : Transaction → Option SipResponse
response_of (invite_server tx) = tx.responses
response_of (non_invite_server tx) = tx.responses
response_of _ = none

-- A server transaction as its constructor leaves it: the request is there, no response, not done.
abbrev pub IsFresh : Transaction → Type 0
IsFresh (invite_server tx) = (tx.responses ≡ none) × (tx.done ≡ false)
IsFresh (non_invite_server tx) = (tx.responses ≡ none) × (tx.done ≡ false)
IsFresh _ = ⊥

-- Either the response is in the channel of the transaction, or the transaction has a new owner, for
-- a call that was not rejected.
abbrev pub IsAnswered : Served → Type 0
IsAnswered (replied tx outcome res) = (outcome ≡ accepted) × (response_of tx ≡ some res)
IsAnswered (handed_over tx (responded res)) = ⊥
IsAnswered (handed_over tx _) = response_of tx ≡ none
IsAnswered _ = ⊥

abbrev pub AnsweredIn : Result (SipServer × Served) → Type 0
AnsweredIn (ok (s, served)) = IsAnswered served
AnsweredIn (err e) = Unit
AnsweredIn panic = Unit

response_of-fresh : (tx : Transaction) → IsFresh tx → response_of tx ≡ none
response_of-fresh (invite_server tx) h = h.0
response_of-fresh (non_invite_server tx) h = h.0
response_of-fresh (invite_client tx) h = absurd h
response_of-fresh (non_invite_client tx) h = absurd h

-- The response to a fresh transaction is accepted and stands in its channel.
abbrev pub IsReplied : SipResponse → Served → Type 0
IsReplied res served =
    (tx : Transaction) × (served ≡ replied tx accepted res) × (response_of tx ≡ some res)

pub reply-IsReplied :
    (pick : Bool) (res : SipResponse) (tx : Transaction)
    → IsFresh tx
    → IsReplied res (reply pick res tx)
unfolding reply InviteServer.respond NonInviteServer.respond
reply-IsReplied pick res (invite_server tx) h =
    (invite_server (record tx { responses = some res }), ground arith, refl)
reply-IsReplied pick res (non_invite_server tx) h =
    (non_invite_server (record tx { responses = some res }), ground arith, refl)
reply-IsReplied pick res (invite_client tx) h = absurd h
reply-IsReplied pick res (non_invite_client tx) h = absurd h

reply-IsAnswered :
    (pick : Bool) (res : SipResponse) (tx : Transaction)
    → IsFresh tx
    → IsAnswered (reply pick res tx)
unfolding reply InviteServer.respond NonInviteServer.respond
reply-IsAnswered pick res (invite_server tx) h = ground arith
reply-IsAnswered pick res (non_invite_server tx) h = ground arith
reply-IsAnswered pick res (invite_client tx) h = absurd h
reply-IsAnswered pick res (non_invite_client tx) h = absurd h

after_invite-IsAnswered :
    (pick : Bool) (b : ℕ) (tx : Transaction) (r : SipServer × InviteAction)
    → IsFresh tx
    → IsAnswered (after_invite pick b tx r).1
unfolding after_invite
after_invite-IsAnswered pick b tx (s, responded res) h = reply-IsAnswered pick res tx h
after_invite-IsAnswered pick b tx (s, bridged contact) h = response_of-fresh tx h
after_invite-IsAnswered pick b tx (s, to_dialog n) h = response_of-fresh tx h
after_invite-IsAnswered pick b tx (s, guidance audio) h = response_of-fresh tx h

take_request-IsFresh : (tx : Transaction) → IsFresh tx → IsFresh (take_request tx)
unfolding take_request
take_request-IsFresh (invite_server tx) h = h
take_request-IsFresh (non_invite_server tx) h = h
take_request-IsFresh (invite_client tx) h = absurd h
take_request-IsFresh (non_invite_client tx) h = absurd h

is_done-fresh : (tx : Transaction) → IsFresh tx → is_done tx ≡ false
unfolding is_done
is_done-fresh (invite_server tx) h = h.1
is_done-fresh (non_invite_server tx) h = h.1
is_done-fresh (invite_client tx) h = absurd h
is_done-fresh (non_invite_client tx) h = absurd h

after_register :
    (pick : Bool) (tx : Transaction) (s : SipServer) (m : Result (Registrar × SipResponse))
    → IsFresh tx
    → AnsweredIn
        (m >>= λ registered. ok (record s { registrar = registered.0 }, reply pick registered.1 tx))
after_register pick tx s (ok (r, res)) h = reply-IsAnswered pick res tx h
after_register pick tx s (err e) h = tt
after_register pick tx s panic h = tt

serve_request-AnsweredIn :
    (services : Services) (draw : Draw) (pick : Bool) (b : ℕ) (tx : Transaction) (req : SipRequest)
    (s : SipServer)
    → IsFresh tx
    → AnsweredIn (serve_request services draw pick b tx req s)
unfolding serve_request
serve_request-AnsweredIn services draw pick b tx req s h =
    elim (Bool-cases (method_is (codes "REGISTER") req)) [
      | inl e ↦ rw (e) (after_register pick tx s _ h)
      | inr e ↦
          elim (Bool-cases (method_is (codes "INVITE") req || method_is (codes "UPDATE") req)) [
            | inl f ↦ rw (e, f) (after_invite-IsAnswered pick b tx (handle_invite draw.now req s) h)
            | inr f ↦ rw (e, f) (reply-IsAnswered pick (method_not_allowed req) tx h)
          ]
    ]

-- For a server transaction with its first request in the channel, no response in it and `done`
-- open, `handleTransaction` ends with a response in the channel of that transaction, or hands the
-- transaction over (to a dialog, the guidance application or a B2BUA) with no response in the
-- channel, unless `handleRegister` panics or fails.
pub handle_transaction-AnsweredIn :
    (services : Services) (draw : Draw) (pick takes : Bool) (b : ℕ) (tx : Transaction)
    (req : SipRequest) (s : SipServer)
    → request_of tx ≡ some req
    → IsFresh tx
    → AnsweredIn (handle_transaction services draw pick takes b tx s)
unfolding handle_transaction
handle_transaction-AnsweredIn services draw pick takes b tx req s r h =
    rw (handle_transaction, r, is_done-fresh tx h)
      (serve_request-AnsweredIn services draw pick b (take_request tx) req s
        (take_request-IsFresh tx h))
