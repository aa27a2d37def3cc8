-- ===== src/Tx/InviteServer/Diagram.antt =====
-- The states of the INVITE server transaction, its invariant, and its end.
use xylitol.Base.{
  Bytes, ok, if◌then◌else◌, Bool, true, false, List, [], ◌∷◌, ◌≡◌, ◌≢◌, arith, zero, suc, none,
  some, codes, equal, not, ℤ, at_least, ◌&&◌,
}
use xylitol.Sip.Message.{SipRequest}
use xylitol.Tx.Common.{is_reliable, armed, t4, stop}
use xylitol.Tx.InviteServer.{
  new_invite_server_tx, State, completed, confirmed, terminated, InviteServerTx, Event, step, steps,
  receive, received, responded, response_taken, done_seen, timer_g_fires, lost_timer_g_fires,
  lost_timer_h_fires, timer_h_fires, timer_i_fires, terminate_called,
}

-- Where the write of a response with this status leads; 100 is written by the constructor.
abbrev pub on_status : ℤ → State → State
on_status status terminated = terminated
on_status status s =
    if not (at_least 200 status)
    then s
    else if not (at_least 300 status)
    then terminated
    else if not (at_least 700 status)
    then completed
    else s

-- An ACK: on a reliable transport `confirmed` is left at once.
abbrev pub on_ack : Bool → State → State
on_ack reliable completed = if reliable then terminated else confirmed
on_ack reliable s = s

-- Where each event leads: RFC 3261 figure 7, but a further response that the transaction user sends
-- counts in `completed` and `confirmed` too, where the figure has none.
abbrev pub next_state : Event → InviteServerTx → State
next_state (received written req) tx =
    if equal req.method (codes "ACK") then on_ack (is_reliable tx.proto) tx.state else tx.state
next_state (responded pick res) tx = tx.state
next_state (response_taken written) tx = elim tx.responses [
  | none ↦ tx.state
  | some res ↦ if tx.running && written then on_status res.status_code tx.state else tx.state
]
next_state done_seen tx = tx.state
next_state (timer_g_fires written) tx = tx.state
next_state (lost_timer_g_fires written) tx = tx.state
next_state lost_timer_h_fires tx = elim tx.lost_timers_h [ zero ↦ tx.state | suc n ↦ terminated ]
next_state timer_h_fires tx = elim tx.timer_h [ armed i ↦ terminated | _ ↦ tx.state ]
next_state timer_i_fires tx = elim tx.timer_i [ armed i ↦ terminated | _ ↦ tx.state ]
next_state terminate_called tx = terminated

pub record IsValid (tx : InviteServerTx) : Type 0 where
  pub ends : tx.state ≡ terminated → tx.done ≡ true
  pub ended : tx.done ≡ true → tx.state ≡ terminated
  pub answered : tx.state ≡ completed → tx.last_response ≢ none
  pub loops : tx.done ≡ false → tx.running ≡ true

pub step-IsValid : (e : Event) (tx : InviteServerTx) → IsValid tx → IsValid (step e tx)
unfolding step
step-IsValid e tx h = ground arith

-- After any events from a valid transaction: `done` is closed exactly where the state is the last
-- one, a completed transaction has a response to retransmit, and the goroutine that sends responses
-- runs until `done` is closed.
pub steps-IsValid : (es : List Event) (tx : InviteServerTx) → IsValid tx → IsValid (steps es tx)
unfolding steps
steps-IsValid [] tx h = h
steps-IsValid (e ∷ es) tx h = steps-IsValid es (step e tx) (step-IsValid e tx h)

-- A new transaction is valid, whether its 100 response could be written or not.
pub new_invite_server_tx-IsValid :
    (written : Bool) (req : SipRequest) (proto : Bytes) (tx : InviteServerTx)
    → new_invite_server_tx written req proto ≡ ok tx
    → IsValid tx
unfolding new_invite_server_tx
new_invite_server_tx-IsValid true req proto tx h = ground arith
new_invite_server_tx-IsValid false req proto tx h = ground arith

-- An ACK ends the retransmissions of a completed transaction: timers G and H stop, and it is
-- terminated at once on a reliable transport, confirmed for 5 seconds on another.
pub ack_confirms :
    (written : Bool) (req : SipRequest) (tx : InviteServerTx)
    → tx.stuck ≡ false
    → tx.state ≡ completed
    → equal req.method (codes "ACK") ≡ true
    → let t = receive written req tx in
      (t.timer_g ≡ stop tx.timer_g)
      × (t.timer_h ≡ stop tx.timer_h)
      × (t.sent ≡ tx.sent)
      × (t.state ≡ (if is_reliable tx.proto then terminated else confirmed))
      × (t.done ≡ (if is_reliable tx.proto then true else tx.done))
      × (t.timer_i ≡ (if is_reliable tx.proto then stop tx.timer_i else armed t4))
unfolding receive
ack_confirms written req tx free done_ ack = ground arith
