-- ===== src/Tx/InviteClient.antt =====
-- The INVITE client transaction (transaction_invite_client.go).
--
-- `stuck` says that a goroutine waits for `tx.mu` which it holds itself: the mutex is then never
-- released, and every handler that begins by locking it waits for ever. `waiting` holds what
-- goroutines try to send on the full channel `responses`; each calls Terminate when it is through.
pub mod Diagram
pub mod Finish
pub mod Failure
pub mod Schedule
use xylitol.Base.{
  ℕ, ◌*◌, ◌&&◌, not, Bool, true, false, List, [], ◌∷◌, ◌++◌, Option, none, some, if◌then◌else◌,
  Bytes, codes, at_least, pos, Result, ok, ◌>>=◌,
}
use xylitol.Sip.Message.{SipRequest, SipResponse}
use xylitol.Sip.Via.{top_via, branch}
use xylitol.Sip.Build.{build_ack}
use xylitol.Tx.Common.{
  t1, is_reliable, Message, request, Timer, unset, expired, stopped, armed, stop, unavailable,
  timeout,
}

pub data State : Type 0 where
  calling proceeding completed terminated : State

pub record InviteClientTx : Type 0 where
  pub id : Bytes
  pub original_request : SipRequest
  pub state : State
  pub stuck : Bool
  pub timer_a : Timer
  pub timer_b : Timer
  pub timer_d : Timer
  pub done : Bool  -- the channel is closed
  pub responses : Option SipResponse  -- the channel's buffer, of size 1
  pub waiting : List SipResponse
  pub proto : Bytes  -- `transport.GetProto()`
  pub sent : List Message  -- the latest first
  pub last_response : Option SipResponse

-- The body of `Terminate` behind the lock.
terminate_in : State → InviteClientTx → InviteClientTx
terminate_in terminated tx = tx
terminate_in _ tx = record tx {
  state = terminated;
  timer_a = stop tx.timer_a;
  timer_b = stop tx.timer_b;
  timer_d = stop tx.timer_d;
  done = true;
}

unfoldable pub terminate : InviteClientTx → InviteClientTx
unfolding terminate_in
terminate tx = if tx.stuck then tx else terminate_in tx.state tx

-- `sendResponseToTU`: dropped where the buffer is full.
offer : SipResponse → InviteClientTx → InviteClientTx
offer res tx = elim tx.responses [ none ↦ record tx { responses = some res } | some _ ↦ tx ]

-- `tx.responses <- res`, which waits where the buffer is full.
push : SipResponse → InviteClientTx → InviteClientTx
push res tx = elim tx.responses [
  | none ↦ record tx { responses = some res }
  | some _ ↦ record tx { waiting = tx.waiting ++ res ∷ [] }
]

-- `push`, and then Terminate, at once or when the send is through.
push_and_terminate : SipResponse → InviteClientTx → InviteClientTx
unfolding terminate
push_and_terminate res tx = elim tx.responses [
  | none ↦ terminate (record tx { responses = some res })
  | some _ ↦ record tx { waiting = tx.waiting ++ res ∷ [] }
]

-- Called with the mutex locked: after a failed write Terminate waits for it for ever.
send_ack : Bool → SipResponse → InviteClientTx → InviteClientTx
send_ack true res tx = record tx { sent = request (build_ack res tx.original_request) ∷ tx.sent }
send_ack false res tx = record tx { stuck = true }

provisional : State → SipResponse → InviteClientTx → InviteClientTx
unfolding offer
provisional calling res tx = offer res (record tx { state = proceeding; timer_a = stop tx.timer_a })
provisional _ res tx = offer res tx

-- Behind the ACK for the first final response; not reached where that has failed.
wait_for_retransmissions : InviteClientTx → InviteClientTx
unfolding terminate is_reliable
wait_for_retransmissions tx =
    if tx.stuck
    then tx
    else if is_reliable tx.proto
    then terminate tx
    else record tx { timer_d = armed 32000 }

first_failure : Bool → SipResponse → InviteClientTx → InviteClientTx
unfolding offer send_ack wait_for_retransmissions
first_failure written res tx =
    wait_for_retransmissions (send_ack written res (offer res (record tx { state = completed })))

failure : State → Bool → SipResponse → InviteClientTx → InviteClientTx
unfolding first_failure send_ack
failure calling written res tx = first_failure written res tx
failure proceeding written res tx = first_failure written res tx
failure completed written res tx = send_ack written res tx
failure terminated written res tx = tx

-- The state is set to terminated before Terminate is called, which then returns at once.
success : State → SipResponse → InviteClientTx → InviteClientTx
unfolding offer terminate
success calling res tx = terminate (offer res (record tx { state = terminated }))
success proceeding res tx = terminate (offer res (record tx { state = terminated }))
success _ res tx = tx

abbrev is_terminated : State → Bool
is_terminated terminated = true
is_terminated _ = false

handle_response : Bool → SipResponse → InviteClientTx → InviteClientTx
unfolding provisional failure success
handle_response written res tx =
    if is_terminated tx.state
    then tx
    else if at_least 100 res.status_code && not (at_least 200 res.status_code)
    then provisional tx.state res tx
    else if at_least 300 res.status_code
    then failure tx.state written res tx
    else if at_least 200 res.status_code
    then success tx.state res tx
    else tx

unfoldable pub receive_response : Bool → SipResponse → InviteClientTx → InviteClientTx
unfolding handle_response
receive_response written res tx =
    if tx.stuck then tx else handle_response written res (record tx { last_response = some res })

-- Reliable transports do not retransmit.
start_timer_a : ℕ → InviteClientTx → InviteClientTx
unfolding is_reliable
start_timer_a interval tx =
    if is_reliable tx.proto then tx else record tx { timer_a = armed interval }

-- `sendRequest` from `run`, with the mutex free.
send_request : Bool → InviteClientTx → InviteClientTx
unfolding push_and_terminate
send_request true tx = record tx { sent = request tx.original_request ∷ tx.sent }
send_request false tx = push_and_terminate unavailable tx

-- `sendRequest` from the callback of timer A, with the mutex locked.
resend_request : Bool → InviteClientTx → InviteClientTx
unfolding push
resend_request true tx = record tx { sent = request tx.original_request ∷ tx.sent }
resend_request false tx = record (push unavailable tx) { stuck = true }

retransmit : State → ℕ → Bool → InviteClientTx → InviteClientTx
unfolding resend_request start_timer_a
retransmit calling interval written tx =
    let t = resend_request written tx in if t.stuck then t else start_timer_a (interval * 2) t
retransmit _ interval written tx = tx

unfoldable pub timer_a_callback : ℕ → Bool → InviteClientTx → InviteClientTx
unfolding retransmit
timer_a_callback interval written tx =
    if tx.stuck then tx else retransmit tx.state interval written tx

unfoldable pub timer_b_callback : InviteClientTx → InviteClientTx
unfolding push_and_terminate
timer_b_callback tx = push_and_terminate timeout tx

-- `NewInviteClientTx`, and `run` up to its wait for `done`.
unfoldable pub new_invite_client_tx : SipRequest → Bytes → Result InviteClientTx
unfolding top_via branch
new_invite_client_tx req proto = do
  via ← top_via req
  ok (record {
    id = branch via;
    original_request = req;
    state = calling;
    stuck = false;
    timer_a = unset;
    timer_b = unset;
    timer_d = unset;
    done = false;
    responses = none;
    waiting = [];
    proto = proto;
    sent = [];
    last_response = none;
  })

unfoldable pub run : Bool → InviteClientTx → InviteClientTx
unfolding send_request start_timer_a
run written tx = start_timer_a t1 (record (send_request written tx) { timer_b = armed (64 * t1) })

-- The transaction user reads the channel; a goroutine that waits to send is then through.
unfoldable pub read_response : InviteClientTx → InviteClientTx
unfolding terminate
read_response tx = elim tx.responses [
  | none ↦ tx
  | some _ ↦ elim tx.waiting [
    | [] ↦ record tx { responses = none }
    | w ∷ ws ↦ terminate (record tx { responses = some w; waiting = ws })
  ]
]

pub data Event : Type 0 where
  received : Bool → SipResponse → Event
  timer_a_fires : Bool → Event
  timer_b_fires timer_d_fires response_read terminate_called : Event

-- A timer fires only while it runs.
unfoldable pub step : Event → InviteClientTx → InviteClientTx
unfolding receive_response timer_a_callback timer_b_callback terminate read_response
step (received written res) tx = receive_response written res tx
step (timer_a_fires written) tx = elim tx.timer_a [
  | armed i ↦ timer_a_callback i written (record tx { timer_a = expired })
  | _ ↦ tx
]
step timer_b_fires tx = elim tx.timer_b [
  | armed i ↦ timer_b_callback (record tx { timer_b = expired })
  | _ ↦ tx
]
step timer_d_fires tx = elim tx.timer_d [
  | armed i ↦ terminate (record tx { timer_d = expired })
  | _ ↦ tx
]
step response_read tx = read_response tx
step terminate_called tx = terminate tx

unfoldable pub steps : List Event → InviteClientTx → InviteClientTx
steps [] tx = tx
steps (e ∷ es) tx = steps es (step e tx)
