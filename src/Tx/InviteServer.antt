-- ===== src/Tx/InviteServer.antt =====
-- The INVITE server transaction (transaction_invite_server.go).
--
-- `stuck` says that a goroutine waits for `tx.mu` which it holds itself, so that the mutex is never
-- released. `running` says that the goroutine of `run` is in its loop. A further final response
-- starts timers G and H anew while the earlier ones, which nothing refers to any more, run on:
-- `lost_timers_g` and `lost_timers_h` count these.
pub mod Diagram
pub mod Respond
use xylitol.Base.{
  ℕ, zero, suc, ◌*◌, ◌&&◌, not, Bool, true, false, List, [], ◌∷◌, Option, none, some, ltb,
  if◌then◌else◌, Bytes, codes, equal, is_nil, at_least, pos, Result, ok, err, ◌>>=◌, missing_branch,
}
use xylitol.Sip.Message.{SipRequest, SipResponse}
use xylitol.Sip.Via.{top_via, branch}
use xylitol.Sip.Build.{build_response}
use xylitol.Tx.Common.{
  t1, t2, t4, is_reliable, Message, response, Timer, unset, expired, stopped, armed, stop, Outcome,
  accepted, refused, waits,
}

pub data State : Type 0 where
  proceeding completed confirmed terminated : State

pub record InviteServerTx : Type 0 where
  pub id : Bytes
  pub original_req : SipRequest
  pub last_response : Option SipResponse
  pub state : State
  pub stuck : Bool
  pub timer_g : Timer
  pub timer_h : Timer
  pub timer_i : Timer
  pub lost_timers_g : ℕ
  pub lost_timers_h : ℕ
  pub done : Bool
  pub responses : Option SipResponse
  pub requests : Option SipRequest
  pub running : Bool
  pub proto : Bytes
  pub sent : List Message

terminate_in : State → InviteServerTx → InviteServerTx
terminate_in terminated tx = tx
terminate_in _ tx = record tx {
  state = terminated;
  timer_g = stop tx.timer_g;
  timer_h = stop tx.timer_h;
  timer_i = stop tx.timer_i;
  done = true;
}

unfoldable pub terminate : InviteServerTx → InviteServerTx
unfolding terminate_in
terminate tx = if tx.stuck then tx else terminate_in tx.state tx

-- `send` with the mutex locked: after a failed write Terminate waits for it for ever.
send_locked : Bool → SipResponse → InviteServerTx → InviteServerTx
send_locked true res tx = record tx { sent = response res ∷ tx.sent }
send_locked false res tx = record tx { stuck = true }

-- `send` from the constructor, with the mutex free.
send : Bool → SipResponse → InviteServerTx → InviteServerTx
unfolding terminate
send true res tx = record tx { sent = response res ∷ tx.sent }
send false res tx = terminate tx

-- `tx.send(tx.lastResponse)` where that is not nil.
resend_last : Bool → Option SipResponse → InviteServerTx → InviteServerTx
unfolding send_locked
resend_last written none tx = tx
resend_last written (some res) tx = send_locked written res tx

confirm : InviteServerTx → InviteServerTx
unfolding is_reliable terminate
confirm tx =
    let t = record tx { state = confirmed; timer_g = stop tx.timer_g; timer_h = stop tx.timer_h } in
    if is_reliable tx.proto then terminate t else record t { timer_i = armed t4 }

receive_ack : State → InviteServerTx → InviteServerTx
unfolding confirm
receive_ack completed tx = confirm tx
receive_ack _ tx = tx

receive_again : State → Bool → InviteServerTx → InviteServerTx
unfolding resend_last
receive_again proceeding written tx = resend_last written tx.last_response tx
receive_again completed written tx = resend_last written tx.last_response tx
receive_again _ written tx = tx

unfoldable pub receive : Bool → SipRequest → InviteServerTx → InviteServerTx
unfolding receive_ack receive_again equal
receive written req tx =
    if tx.stuck
    then tx
    else if equal req.method (codes "ACK")
    then receive_ack tx.state tx
    else receive_again tx.state written tx

-- `Respond`. Where the channel has room and `done` is closed, Go picks one of the two: `pick` is
-- `true` for the channel.
unfoldable pub respond : Bool → SipResponse → InviteServerTx → InviteServerTx × Outcome
respond pick res tx = elim tx.responses [
  | none ↦
      if not tx.done
      then (record tx { responses = some res }, accepted)
      else if pick
      then (record tx { responses = some res }, accepted)
      else (tx, refused)
  | some _ ↦ if tx.done then (tx, refused) else (tx, waits)
]

-- A timer that runs is lost where another one takes its place.
abbrev lose : Timer → ℕ → ℕ
lose (armed i) n = suc n
lose _ n = n

start_timer_g : InviteServerTx → InviteServerTx
unfolding is_reliable
start_timer_g tx =
    if is_reliable tx.proto
    then tx
    else record tx { timer_g = armed t1; lost_timers_g = lose tx.timer_g tx.lost_timers_g }

-- The `switch` behind the write in `run`; a 2xx response ends the loop.
after_write : SipResponse → InviteServerTx → InviteServerTx
unfolding terminate start_timer_g
after_write res tx =
    if at_least 101 res.status_code && not (at_least 200 res.status_code)
    then tx
    else if at_least 200 res.status_code && not (at_least 300 res.status_code)
    then record (terminate tx) { running = false }
    else if at_least 300 res.status_code && not (at_least 700 res.status_code)
    then record (start_timer_g (record tx { state = completed })) {
      timer_h = armed (64 * t1);
      lost_timers_h = lose tx.timer_h tx.lost_timers_h;
    }
    else tx

abbrev pub is_terminated : State → Bool
is_terminated terminated = true
is_terminated _ = false

-- `run` with a response from the channel.
process : Bool → SipResponse → InviteServerTx → InviteServerTx
unfolding send_locked after_write
process written res tx =
    if is_terminated tx.state
    then record tx { running = false }
    else let t = send_locked written res (record tx { last_response = some res }) in
      if t.stuck then t else after_write res t

take_response : Bool → Option SipResponse → InviteServerTx → InviteServerTx
unfolding process
take_response written none tx = tx
take_response written (some res) tx = process written res (record tx { responses = none })

-- One round of the loop of `run`. A goroutine that waits for the mutex takes no further part.
unfoldable pub run_response : Bool → InviteServerTx → InviteServerTx
unfolding take_response
run_response written tx =
    if tx.running && not tx.stuck then take_response written tx.responses tx else tx

unfoldable pub run_done : InviteServerTx → InviteServerTx
run_done tx = if tx.running && tx.done then record tx { running = false } else tx

-- The callback of timer G: its interval doubles up to T2.
unfoldable pub next_interval : ℕ → ℕ
next_interval interval = if ltb t2 (interval * 2) then t2 else interval * 2

retransmit : State → ℕ → Bool → InviteServerTx → InviteServerTx
unfolding resend_last next_interval
retransmit completed interval written tx =
    let t = resend_last written tx.last_response tx in
    if t.stuck then t else record t { timer_g = armed (next_interval interval) }
retransmit _ interval written tx = tx

unfoldable pub timer_g_callback : ℕ → Bool → InviteServerTx → InviteServerTx
unfolding retransmit
timer_g_callback interval written tx =
    if tx.stuck then tx else retransmit tx.state interval written tx

resend_where_completed : State → Bool → InviteServerTx → InviteServerTx
unfolding resend_last
resend_where_completed completed written tx = resend_last written tx.last_response tx
resend_where_completed _ written tx = tx

-- The callback of a lost timer G: its `Reset` moves the time of the present timer G, which runs
-- anyway in this state.
unfoldable pub lost_timer_g_callback : Bool → InviteServerTx → InviteServerTx
unfolding resend_where_completed
lost_timer_g_callback written tx =
    if tx.stuck then tx else resend_where_completed tx.state written tx

-- `NewInviteServerTx`: the 100 response is written before the goroutine of `run` starts.
unfoldable pub new_invite_server_tx : Bool → SipRequest → Bytes → Result InviteServerTx
unfolding top_via branch build_response send
new_invite_server_tx written req proto = do
  via ← top_via req
  let id = branch via
  if is_nil id
      then err missing_branch
      else ok
          (record (send written (build_response (pos 100) (codes "Trying") req []) (record {
            id = id;
            original_req = req;
            last_response = none;
            state = proceeding;
            stuck = false;
            timer_g = unset;
            timer_h = unset;
            timer_i = unset;
            lost_timers_g = 0;
            lost_timers_h = 0;
            done = false;
            responses = none;
            requests = none;
            running = false;
            proto = proto;
            sent = [];
          })) { running = true; requests = some req })

pub data Event : Type 0 where
  received : Bool → SipRequest → Event
  responded : Bool → SipResponse → Event
  response_taken : Bool → Event
  timer_g_fires lost_timer_g_fires : Bool → Event
  done_seen timer_h_fires lost_timer_h_fires timer_i_fires terminate_called : Event

unfoldable pub step : Event → InviteServerTx → InviteServerTx
unfolding receive respond run_response run_done timer_g_callback lost_timer_g_callback terminate
step (received written req) tx = receive written req tx
step (responded pick res) tx = (respond pick res tx).0
step (response_taken written) tx = run_response written tx
step done_seen tx = run_done tx
step (timer_g_fires written) tx = elim tx.timer_g [
  | armed i ↦ timer_g_callback i written (record tx { timer_g = expired })
  | _ ↦ tx
]
step (lost_timer_g_fires written) tx = elim tx.lost_timers_g [
  | zero ↦ tx
  | suc n ↦ lost_timer_g_callback written (record tx { lost_timers_g = n })
]
step lost_timer_h_fires tx = elim tx.lost_timers_h [
  | zero ↦ tx
  | suc n ↦ terminate (record tx { lost_timers_h = n })
]
step timer_h_fires tx = elim tx.timer_h [
  | armed i ↦ terminate (record tx { timer_h = expired })
  | _ ↦ tx
]
step timer_i_fires tx = elim tx.timer_i [
  | armed i ↦ terminate (record tx { timer_i = expired })
  | _ ↦ tx
]
step terminate_called tx = terminate tx

unfoldable pub steps : List Event → InviteServerTx → InviteServerTx
steps [] tx = tx
steps (e ∷ es) tx = steps es (step e tx)
