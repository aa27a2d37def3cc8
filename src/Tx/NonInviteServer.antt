-- ===== src/Tx/NonInviteServer.antt =====
-- The non-INVITE server transaction (transaction_noninvite_server.go).
--
-- `stuck` and `running` are as in the INVITE server transaction. The handler of a retransmission
-- holds the mutex for reading, and Terminate waits for that too.
pub mod Respond
use xylitol.Base.{
  ℕ, ◌*◌, ◌&&◌, not, Bool, true, false, List, [], ◌∷◌, Option, none, some, if◌then◌else◌, Bytes,
  is_nil, at_least, Result, ok, err, ◌>>=◌, missing_branch,
}
use xylitol.Sip.Message.{SipRequest, SipResponse}
use xylitol.Sip.Via.{top_via, branch}
use xylitol.Tx.Common.{
  t1, is_reliable, Message, response, Timer, unset, expired, stopped, armed, stop, Outcome,
  accepted, refused, waits,
}

pub data State : Type 0 where
  trying proceeding completed terminated : State

pub record NonInviteServerTx : Type 0 where
  pub id : Bytes
  pub original_req : SipRequest
  pub last_response : Option SipResponse
  pub state : State
  pub stuck : Bool
  pub timer_j : Timer
  pub done : Bool
  pub responses : Option SipResponse
  pub requests : Option SipRequest
  pub running : Bool
  pub proto : Bytes
  pub sent : List Message

terminate_in : State → NonInviteServerTx → NonInviteServerTx
terminate_in terminated tx = tx
terminate_in _ tx = record tx { state = terminated; timer_j = stop tx.timer_j; done = true }

unfoldable pub terminate : NonInviteServerTx → NonInviteServerTx
unfolding terminate_in
terminate tx = if tx.stuck then tx else terminate_in tx.state tx

-- `send`, always with the mutex locked: after a failed write Terminate waits for it for ever.
send : Bool → SipResponse → NonInviteServerTx → NonInviteServerTx
send true res tx = record tx { sent = response res ∷ tx.sent }
send false res tx = record tx { stuck = true }

resend_last : Bool → Option SipResponse → NonInviteServerTx → NonInviteServerTx
unfolding send
resend_last written none tx = tx
resend_last written (some res) tx = send written res tx

receive_again : State → Bool → NonInviteServerTx → NonInviteServerTx
unfolding resend_last
receive_again proceeding written tx = resend_last written tx.last_response tx
receive_again completed written tx = resend_last written tx.last_response tx
receive_again _ written tx = tx

-- A retransmitted request.
unfoldable pub receive : Bool → NonInviteServerTx → NonInviteServerTx
unfolding receive_again
receive written tx = if tx.stuck then tx else receive_again tx.state written tx

-- `Respond`. Where the channel has room and `done` is closed, Go picks one of the two: `pick` is
-- `true` for the channel.
unfoldable pub respond : Bool → SipResponse → NonInviteServerTx → NonInviteServerTx × Outcome
respond pick res tx = elim tx.responses [
  | none ↦
      if not tx.done
      then (record tx { responses = some res }, accepted)
      else if pick
      then (record tx { responses = some res }, accepted)
      else (tx, refused)
  | some _ ↦ if tx.done then (tx, refused) else (tx, waits)
]

abbrev has_final : Option SipResponse → Bool
has_final none = false
has_final (some res) = at_least 200 res.status_code

-- Behind the write in `run`: a final response on a reliable transport ends the loop.
after_write : SipResponse → NonInviteServerTx → NonInviteServerTx
unfolding terminate is_reliable
after_write res tx =
    if not (at_least 200 res.status_code)
    then record tx { state = proceeding }
    else if is_reliable tx.proto
    then record (terminate (record tx { state = completed })) { running = false }
    else record tx { state = completed; timer_j = armed (64 * t1) }

write : Bool → SipResponse → NonInviteServerTx → NonInviteServerTx
unfolding send after_write
write written res tx =
    let t = send written res (record tx { last_response = some res }) in
    if t.stuck then t else after_write res t

-- `run` with a response from the channel.
process : State → Bool → SipResponse → NonInviteServerTx → NonInviteServerTx
unfolding write
process terminated written res tx = record tx { running = false }
process completed written res tx = if has_final tx.last_response then tx else write written res tx
process _ written res tx = write written res tx

take_response : Bool → Option SipResponse → NonInviteServerTx → NonInviteServerTx
unfolding process
take_response written none tx = tx
take_response written (some res) tx = process tx.state written res (record tx { responses = none })

-- One round of the loop of `run`.
unfoldable pub run_response : Bool → NonInviteServerTx → NonInviteServerTx
unfolding take_response
run_response written tx =
    if tx.running && not tx.stuck then take_response written tx.responses tx else tx

unfoldable pub run_done : NonInviteServerTx → NonInviteServerTx
run_done tx = if tx.running && tx.done then record tx { running = false } else tx

-- `NewNonInviteServerTx`
unfoldable pub new_non_invite_server_tx : SipRequest → Bytes → Result NonInviteServerTx
unfolding top_via branch
new_non_invite_server_tx req proto = do
  via ← top_via req
  let id = branch via
  if is_nil id
      then err missing_branch
      else ok (record {
        id = id;
        original_req = req;
        last_response = none;
        state = trying;
        stuck = false;
        timer_j = unset;
        done = false;
        responses = none;
        requests = some req;
        running = true;
        proto = proto;
        sent = [];
      })

pub data Event : Type 0 where
  received : Bool → Event
  responded : Bool → SipResponse → Event
  response_taken : Bool → Event
  done_seen timer_j_fires terminate_called : Event

unfoldable pub step : Event → NonInviteServerTx → NonInviteServerTx
unfolding receive respond run_response run_done terminate
step (received written) tx = receive written tx
step (responded pick res) tx = (respond pick res tx).0
step (response_taken written) tx = run_response written tx
step done_seen tx = run_done tx
step timer_j_fires tx = elim tx.timer_j [
  | armed i ↦ terminate (record tx { timer_j = expired })
  | _ ↦ tx
]
step terminate_called tx = terminate tx

unfoldable pub steps : List Event → NonInviteServerTx → NonInviteServerTx
steps [] tx = tx
steps (e ∷ es) tx = steps es (step e tx)
