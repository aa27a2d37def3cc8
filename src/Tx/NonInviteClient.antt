-- ===== src/Tx/NonInviteClient.antt =====
-- The non-INVITE client transaction (transaction_noninvite_client.go).
--
-- `stuck` and `waiting` are as in the INVITE client transaction.
pub mod Diagram
pub mod Schedule
use xylitol.Base.{
  ℕ, ◌*◌, ◌||◌, Bool, true, false, List, [], ◌∷◌, ◌++◌, Option, none, some, ltb, if◌then◌else◌,
  Bytes, codes, at_least, pos, Result, ok, ◌>>=◌,
}
use xylitol.Sip.Message.{SipRequest, SipResponse}
use xylitol.Sip.Via.{top_via, branch}
use xylitol.Tx.Common.{
  t1, t2, t4, is_reliable, Message, request, Timer, unset, expired, stopped, armed, stop,
  unavailable, timeout,
}

pub data State : Type 0 where
  trying proceeding completed terminated : State

pub record NonInviteClientTx : Type 0 where
  pub id : Bytes
  pub original_request : SipRequest
  pub state : State
  pub stuck : Bool
  pub timer_e : Timer
  pub timer_f : Timer
  pub timer_k : Timer
  pub done : Bool
  pub responses : Option SipResponse
  pub waiting : List SipResponse
  pub proto : Bytes
  pub sent : List Message
  pub last_response : Option SipResponse

terminate_in : State → NonInviteClientTx → NonInviteClientTx
terminate_in terminated tx = tx
terminate_in _ tx = record tx {
  state = terminated;
  timer_e = stop tx.timer_e;
  timer_f = stop tx.timer_f;
  timer_k = stop tx.timer_k;
  done = true;
}

unfoldable pub terminate : NonInviteClientTx → NonInviteClientTx
unfolding terminate_in
terminate tx = if tx.stuck then tx else terminate_in tx.state tx

-- `sendResponseToTU`
offer : SipResponse → NonInviteClientTx → NonInviteClientTx
offer res tx = elim tx.responses [ none ↦ record tx { responses = some res } | some _ ↦ tx ]

-- `tx.responses <- res`
push : SipResponse → NonInviteClientTx → NonInviteClientTx
push res tx = elim tx.responses [
  | none ↦ record tx { responses = some res }
  | some _ ↦ record tx { waiting = tx.waiting ++ res ∷ [] }
]

push_and_terminate : SipResponse → NonInviteClientTx → NonInviteClientTx
unfolding terminate
push_and_terminate res tx = elim tx.responses [
  | none ↦ terminate (record tx { responses = some res })
  | some _ ↦ record tx { waiting = tx.waiting ++ res ∷ [] }
]

-- The final response: timers E and F stop, and timer K starts on an unreliable transport.
complete : NonInviteClientTx → NonInviteClientTx
unfolding is_reliable terminate
complete tx =
    let t = record tx { state = completed; timer_e = stop tx.timer_e; timer_f = stop tx.timer_f } in
    if is_reliable tx.proto then terminate t else record t { timer_k = armed t4 }

accept : SipResponse → NonInviteClientTx → NonInviteClientTx
unfolding offer complete
accept res tx =
    if at_least 200 res.status_code
    then complete (offer res tx)
    else record (offer res tx) { state = proceeding }

handle_response : State → SipResponse → NonInviteClientTx → NonInviteClientTx
unfolding accept
handle_response terminated res tx = tx
handle_response completed res tx = tx
handle_response trying res tx = accept res tx
handle_response proceeding res tx = accept res tx

unfoldable pub receive_response : SipResponse → NonInviteClientTx → NonInviteClientTx
unfolding handle_response
receive_response res tx =
    if tx.stuck then tx else handle_response tx.state res (record tx { last_response = some res })

start_timer_e : ℕ → NonInviteClientTx → NonInviteClientTx
unfolding is_reliable
start_timer_e interval tx =
    if is_reliable tx.proto then tx else record tx { timer_e = armed interval }

-- From `run`, with the mutex free.
send_request : Bool → NonInviteClientTx → NonInviteClientTx
unfolding push_and_terminate
send_request true tx = record tx { sent = request tx.original_request ∷ tx.sent }
send_request false tx = push_and_terminate unavailable tx

-- From the callback of timer E, with the mutex locked.
resend_request : Bool → NonInviteClientTx → NonInviteClientTx
unfolding push
resend_request true tx = record tx { sent = request tx.original_request ∷ tx.sent }
resend_request false tx = record (push unavailable tx) { stuck = true }

abbrev pub is_proceeding : State → Bool
is_proceeding proceeding = true
is_proceeding _ = false

unfoldable pub next_interval : State → ℕ → ℕ
next_interval state interval =
    if is_proceeding state || ltb t2 (interval * 2) then t2 else interval * 2

resend : ℕ → Bool → NonInviteClientTx → NonInviteClientTx
unfolding resend_request start_timer_e next_interval
resend interval written tx =
    let t = resend_request written tx in
    if t.stuck then t else start_timer_e (next_interval t.state interval) t

retransmit : State → ℕ → Bool → NonInviteClientTx → NonInviteClientTx
unfolding resend
retransmit trying interval written tx = resend interval written tx
retransmit proceeding interval written tx = resend interval written tx
retransmit _ interval written tx = tx

unfoldable pub timer_e_callback : ℕ → Bool → NonInviteClientTx → NonInviteClientTx
unfolding retransmit
timer_e_callback interval written tx =
    if tx.stuck then tx else retransmit tx.state interval written tx

unfoldable pub timer_f_callback : NonInviteClientTx → NonInviteClientTx
unfolding push_and_terminate
timer_f_callback tx = push_and_terminate timeout tx

-- `NewNonInviteClientTx`, and `run` up to its wait for `done`.
unfoldable pub new_non_invite_client_tx : SipRequest → Bytes → Result NonInviteClientTx
unfolding top_via branch
new_non_invite_client_tx req proto = do
  via ← top_via req
  ok (record {
    id = branch via;
    original_request = req;
    state = trying;
    stuck = false;
    timer_e = unset;
    timer_f = unset;
    timer_k = unset;
    done = false;
    responses = none;
    waiting = [];
    proto = proto;
    sent = [];
    last_response = none;
  })

unfoldable pub run : Bool → NonInviteClientTx → NonInviteClientTx
unfolding send_request start_timer_e
run written tx = start_timer_e t1 (record (send_request written tx) { timer_f = armed (64 * t1) })

unfoldable pub read_response : NonInviteClientTx → NonInviteClientTx
unfolding terminate
read_response tx = elim tx.responses [
  | none ↦ tx
  | some _ ↦ elim tx.waiting [
    | [] ↦ record tx { responses = none }
    | w ∷ ws ↦ terminate (record tx { responses = some w; waiting = ws })
  ]
]

pub data Event : Type 0 where
  received : SipResponse → Event
  timer_e_fires : Bool → Event
  timer_f_fires timer_k_fires response_read terminate_called : Event

unfoldable pub step : Event → NonInviteClientTx → NonInviteClientTx
unfolding receive_response timer_e_callback timer_f_callback terminate read_response
step (received res) tx = receive_response res tx
step (timer_e_fires written) tx = elim tx.timer_e [
  | armed i ↦ timer_e_callback i written (record tx { timer_e = expired })
  | _ ↦ tx
]
step timer_f_fires tx = elim tx.timer_f [
  | armed i ↦ timer_f_callback (record tx { timer_f = expired })
  | _ ↦ tx
]
step timer_k_fires tx = elim tx.timer_k [
  | armed i ↦ terminate (record tx { timer_k = expired })
  | _ ↦ tx
]
step response_read tx = read_response tx
step terminate_called tx = terminate tx

unfoldable pub steps : List Event → NonInviteClientTx → NonInviteClientTx
steps [] tx = tx
steps (e ∷ es) tx = steps es (step e tx)
