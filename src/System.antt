-- ===== src/System.antt =====
-- The running server (server.go, transaction.go, b2bua.go and the transactions): the goroutines
-- that share the maps of `SIPServer`, as a sequence of steps on them.
--
-- A step is one run of a handler, of a timer's callback or of one turn of a goroutine's loop. Two
-- handlers work on what they have read before they took the lock for writing, and other steps may
-- come between: `handleInvite` filters contacts that it read from an earlier state, and
-- `handleStateful` adds a transaction where `Get` found none in an earlier state. The earlier state
-- is an argument of the first, and the second has a step of its own for the addition.
-- `handleRegister` is one step, although it lets go of the nonces before it locks the contacts.
pub mod Serving
pub mod Sound
pub mod Uninterrupted
use xylitol.Base.{
  ℕ, Bool, List, [], ◌∷◌, Option, none, some, if◌then◌else◌, Bytes, Result, ok, err, panic, ◌>>=◌,
  ◌≡◌, ◌||◌, ◌&&◌, not, is_nil, codes, equal, true, false,
}
use xylitol.Dict.{Dict, lookup, insert, delete}
use xylitol.Sip.Message.{SipRequest, SipResponse}
use xylitol.Sip.Fields.{SessionExpires}
use xylitol.Tx.InviteClient
use xylitol.Tx.InviteServer
use xylitol.Tx.NonInviteClient
use xylitol.Tx.NonInviteServer
use xylitol.Server.Registrar.{Services, Draw}
use xylitol.Server.Sessions.{create_or_update_session, expire_session}
use xylitol.Server.State.{
  Transaction, invite_client, invite_server, non_invite_client, non_invite_server, id, is_done, get,
  remove, SipServer, update_guidance_settings,
}
use xylitol.Server.Dispatch.{dispatch_message, new_request, method_is}
use xylitol.Server.Invite.{active, handle_invite}
use xylitol.Sip.Message.{get_header}
use xylitol.Sip.Fields.{get_tag}
use xylitol.Sip.Uri.{get_sip_uri_header}
use xylitol.Server.Serve.{
  Served, replied, handed_over, handle_transaction, new_client_tx, after_invite, request_of,
  take_request,
}
use xylitol.B2bua.Life.{Call, CallEvent}
use xylitol.B2bua.Life

-- What happens to one transaction: a callback of a timer, a turn of its goroutine, or a call of one
-- of its methods by the transaction user.
pub data TxEvent : Type 0 where
  at_invite_client : InviteClient.Event → TxEvent
  at_invite_server : InviteServer.Event → TxEvent
  at_non_invite_client : NonInviteClient.Event → TxEvent
  at_non_invite_server : NonInviteServer.Event → TxEvent
  runs : Bool → TxEvent  -- `go tx.run()` of a client transaction: whether the request was written

-- An event of another kind of transaction changes nothing.
unfoldable pub step_tx : TxEvent → Transaction → Transaction
unfolding InviteClient.step InviteServer.step NonInviteClient.step NonInviteServer.step
    InviteClient.run NonInviteClient.run
step_tx (at_invite_client e) (invite_client tx) = invite_client (InviteClient.step e tx)
step_tx (at_invite_server e) (invite_server tx) = invite_server (InviteServer.step e tx)
step_tx (at_non_invite_client e) (non_invite_client tx) =
    non_invite_client (NonInviteClient.step e tx)
step_tx (at_non_invite_server e) (non_invite_server tx) =
    non_invite_server (NonInviteServer.step e tx)
step_tx (runs written) (invite_client tx) = invite_client (InviteClient.run written tx)
step_tx (runs written) (non_invite_client tx) = non_invite_client (NonInviteClient.run written tx)
step_tx e tx = tx

-- A transaction of the manager is shared by pointer: what happens to it is seen in the map.
unfoldable pub transaction_event : Bytes → TxEvent → SipServer → SipServer
unfolding lookup insert step_tx
transaction_event branch_id e s = elim (get branch_id s.transactions) [
  | none ↦ s
  | some tx ↦ record s { transactions = insert branch_id (step_tx e tx) s.transactions }
]

-- The goroutine that `Add` starts for a transaction: behind `<-tx.Done()` it removes whatever
-- stands under the branch of its transaction, which may be another transaction by then.
unfoldable pub forget : Transaction → SipServer → SipServer
unfolding is_done id remove
forget tx s = if is_done tx then record s { transactions = remove (id tx) s.transactions } else s

-- The transaction as `handleTransaction` leaves it, seen in the map.
unfoldable pub put_back : Bytes → SipServer × Served → SipServer
unfolding insert
put_back branch_id (s, replied tx outcome res) = record s {
  transactions = insert branch_id tx s.transactions;
}
put_back branch_id (s, handed_over tx action) = record s {
  transactions = insert branch_id tx s.transactions;
}
put_back branch_id (s, _) = s

-- The user whose contacts `handleInvite` looks up, if it comes to that.
unfoldable pub called_user : SipRequest → SipServer → Option Bytes
unfolding lookup equal get_tag get_header get_sip_uri_header
called_user req seen =
    if not (is_nil (get_tag (get_header (codes "To") req)))
    then none
    else elim (get_sip_uri_header (codes "To") req) [
      | ok to ↦ elim (lookup to.user seen.guidance_settings) [
        | some audio_file ↦ none
        | none ↦ if equal to.host seen.registrar.realm then some to.user else none
      ]
      | _ ↦ none
    ]

-- `regMutex.Lock()` in `handleInvite`: the contacts that were read before are filtered and written.
unfoldable pub write_contacts : ℕ → Option Bytes → SipServer → SipServer → SipServer
unfolding lookup insert delete active
write_contacts now none seen s = s
write_contacts now (some user) seen s = elim (lookup user seen.registrar.registrations) [
  | none ↦ s
  | some regs ↦
      let registrations =
        if is_nil (active now regs)
        then delete user s.registrar.registrations
        else insert user (active now regs) s.registrar.registrations in
      record s { registrar = record s.registrar { registrations = registrations } }
]

-- `handleInvite` that has read the maps in the state `seen`, and writes in the state `s`.
unfoldable pub serve_invite :
    Bool → ℕ → Transaction → ℕ → SipRequest → SipServer → SipServer → SipServer × Served
unfolding after_invite handle_invite write_contacts called_user
serve_invite pick b tx now req seen s =
    after_invite pick b tx
      (write_contacts now (called_user req seen) seen s, (handle_invite now req seen).1)

-- The INVITE or UPDATE that `handleTransaction` takes, if any.
unfoldable pub invite_of : Bool → Transaction → Option SipRequest
unfolding request_of is_done equal
invite_of takes tx = elim (request_of tx) [
  | none ↦ none
  | some req ↦
      if (method_is (codes "INVITE") req || method_is (codes "UPDATE") req)
        && (takes || not (is_done tx))
      then some req
      else none
]

-- `go s.handleTransaction(srvTx)` on the transaction of this branch.
unfoldable pub serve :
    Services → Draw → Bool → Bool → ℕ → Bytes → SipServer → SipServer → Result SipServer
unfolding lookup handle_transaction put_back invite_of serve_invite take_request
serve services draw pick takes b branch_id seen s = elim (get branch_id s.transactions) [
  | none ↦ ok s
  | some tx ↦ elim (invite_of takes tx) [
    | some req ↦ ok (put_back branch_id (serve_invite pick b (take_request tx) draw.now req seen s))
    | none ↦ handle_transaction services draw pick takes b tx s >>= λ r. ok (put_back branch_id r)
  ]
]

-- A step of a B2BUA's goroutine, on the two maps of the server that name it.
unfoldable pub call_event : CallEvent → Call → SipServer → Result SipServer
unfolding Life.step
call_event e c s =
    Life.step e (record c { dialogs = s.dialogs; b2bua_by_tx = s.b2bua_by_tx }) >>= λ c'.
    ok (record s { dialogs = c'.dialogs; b2bua_by_tx = c'.b2bua_by_tx })

abbrev client_added : Transaction × SipServer → Result SipServer
client_added (tx, s) = ok s

-- Everything that changes the state of the server. The arguments are those of the functions.
pub data ServerEvent : Type 0 where
  message : Bool → Bytes → Bytes → ServerEvent  -- `dispatchMessage`
  at_transaction : Bytes → TxEvent → ServerEvent
  forgets : Transaction → ServerEvent
  adds : Bool → Bytes → SipRequest → ServerEvent  -- `handleStateful`, behind a look-up in vain
  serves : Services → Draw → Bool → Bool → ℕ → Bytes → SipServer → ServerEvent
  new_client : SipRequest → Bytes → ServerEvent  -- `NewClientTx`
  at_call : CallEvent → Call → ServerEvent
  session_updated : ℕ → SipResponse → Option SessionExpires → ServerEvent
  session_expired : Bytes → ServerEvent
  settings_updated : Dict Bytes → ServerEvent  -- `UpdateGuidanceSettings`

unfoldable pub server_step : ServerEvent → SipServer → Result SipServer
unfolding dispatch_message transaction_event forget new_request serve new_client_tx call_event
    create_or_update_session expire_session update_guidance_settings
server_step (message written proto raw) s = dispatch_message written proto raw s >>= λ r. ok r.0
server_step (at_transaction branch_id e) s = ok (transaction_event branch_id e s)
server_step (forgets tx) s = ok (forget tx s)
server_step (adds written proto req) s = ok (new_request written proto req s).0
server_step (serves services draw pick takes b branch_id seen) s =
    serve services draw pick takes b branch_id seen s
server_step (new_client req proto) s = new_client_tx req proto s >>= client_added
server_step (at_call e c) s = call_event e c s
server_step (session_updated now res se) s =
    ok (record s { sessions = create_or_update_session now res se s.sessions })
server_step (session_expired dialog_id) s =
    ok (record s { sessions = expire_session dialog_id s.sessions })
server_step (settings_updated settings) s = ok (update_guidance_settings settings s)

-- The states that the server goes through from `s0` on, up to a panic. A step that returns an error
-- leaves the state. Steps come in any order and with any earlier state, so that these are more runs
-- than the program has.
pub data Reach (s0 : SipServer) : SipServer → Type 0 where
  here : Reach s0 s0
  next : {s s' : SipServer} (e : ServerEvent) → Reach s0 s → server_step e s ≡ ok s' → Reach s0 s'
