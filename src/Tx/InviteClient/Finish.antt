-- ===== src/Tx/InviteClient/Finish.antt =====
-- The end of the INVITE client transaction: when `done` is closed.
use xylitol.Base.{Bool, true, false, not, ◌&&◌, List, [], ◌∷◌, ◌≡◌, ◌∙◌, ◌⊎◌, arith, at_least}
use xylitol.Sip.Message.{SipResponse}
use xylitol.Tx.InviteClient.{
  calling, proceeding, terminated, InviteClientTx, Event, received, step, steps, receive_response,
}
use xylitol.Tx.InviteClient.Diagram.{step_terminated}

abbrev pub is_success : SipResponse → Bool
is_success res = at_least 200 res.status_code && not (at_least 300 res.status_code)

abbrev pub is_success_event : Event → Bool
is_success_event (received written res) = is_success res
is_success_event _ = false

-- Where no 2xx response is received, `done` is closed as soon as the transaction is terminated.
pub step_done :
    (e : Event) (tx : InviteClientTx)
    → (tx.state ≡ terminated → tx.done ≡ true)
    → is_success_event e ≡ false
    → (step e tx).state ≡ terminated
    → (step e tx).done ≡ true
unfolding step
step_done e tx before no_success h = ground arith

step_done_open :
    (e : Event) (tx : InviteClientTx)
    → tx.state ≡ terminated
    → tx.done ≡ false
    → (step e tx).done ≡ false
unfolding step
step_done_open e tx h open_ = ground arith

steps_done_open :
    (es : List Event) (tx : InviteClientTx)
    → tx.state ≡ terminated
    → tx.done ≡ false
    → ((steps es tx).state ≡ terminated) × ((steps es tx).done ≡ false)
unfolding steps
steps_done_open [] tx h o = (h, o)
steps_done_open (e ∷ es) tx h o =
    steps_done_open es (step e tx) (step_terminated e tx h).0 (step_done_open e tx h o)

receive_success :
    (written : Bool) (res : SipResponse) (tx : InviteClientTx)
    → tx.stuck ≡ false
    → (tx.state ≡ calling) ⊎ (tx.state ≡ proceeding)
    → is_success res ≡ true
    → ((receive_response written res tx).state ≡ terminated)
      × ((receive_response written res tx).done ≡ tx.done)
unfolding receive_response
receive_success written res tx free live h = ground arith

-- After a 2xx response to a transaction that waits for one, the transaction is in its last state,
-- but `done` is never closed, whatever events follow: the 2xx branch sets the state before it calls
-- Terminate, which returns at once.
pub success_leaves_done_open :
    (written : Bool) (res : SipResponse) (tx : InviteClientTx) (es : List Event)
    → tx.stuck ≡ false
    → tx.done ≡ false
    → (tx.state ≡ calling) ⊎ (tx.state ≡ proceeding)
    → is_success res ≡ true
    → ((steps es (receive_response written res tx)).state ≡ terminated)
      × ((steps es (receive_response written res tx)).done ≡ false)
success_leaves_done_open written res tx es free o live h =
    let (state, done) = receive_success written res tx free live h in
    steps_done_open es (receive_response written res tx) state (done ∙ o)
