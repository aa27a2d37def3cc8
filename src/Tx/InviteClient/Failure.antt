-- ===== src/Tx/InviteClient/Failure.antt =====
-- Final responses other than 2xx: the ACK, and what a failed write of it does.
use xylitol.Base.{
  true, false, List, [], ◌∷◌, ◌≡◌, refl, ◌∙◌, ◌⊎◌, arith, none, some, at_least, if◌then◌else◌,
}
use xylitol.Sip.Message.{SipResponse}
use xylitol.Sip.Build.{build_ack}
use xylitol.Tx.Common.{stop, is_reliable, request, armed}
use xylitol.Tx.InviteClient.{
  State, calling, proceeding, completed, terminated, InviteClientTx, Event, step, steps,
  receive_response,
}

abbrev pub IsWaiting : State → Type 0
IsWaiting s = (s ≡ calling) ⊎ (s ≡ proceeding)

-- The first final response of 300 or more, its ACK written: the transaction user is given the
-- response where its channel has room, exactly one ACK is sent, and the transaction ends at once on
-- a reliable transport and waits 32 seconds for retransmissions on another.
pub first_failure_acked :
    (res : SipResponse) (tx : InviteClientTx)
    → tx.stuck ≡ false
    → IsWaiting tx.state
    → at_least 300 res.status_code ≡ true
    → let t = receive_response true res tx in
      (t.sent ≡ request (build_ack res tx.original_request) ∷ tx.sent)
      × (t.responses ≡ elim tx.responses [ none ↦ some res | some r ↦ some r ])
      × (t.state ≡ (if is_reliable tx.proto then terminated else completed))
      × (t.done ≡ (if is_reliable tx.proto then true else tx.done))
      × (t.timer_d ≡ (if is_reliable tx.proto then stop tx.timer_d else armed 32000))
unfolding receive_response
first_failure_acked res tx free live h = ground arith

-- A retransmission of the final response is answered by one more ACK, and changes nothing else but
-- the last response.
pub later_failure_acked :
    (res : SipResponse) (tx : InviteClientTx)
    → tx.stuck ≡ false
    → tx.state ≡ completed
    → at_least 300 res.status_code ≡ true
    → receive_response true res tx ≡ record tx {
      sent = request (build_ack res tx.original_request) ∷ tx.sent;
      last_response = some res;
    }
unfolding receive_response
later_failure_acked res tx free live h = ground arith

step_stuck :
    (e : Event) (tx : InviteClientTx)
    → tx.stuck ≡ true
    → ((step e tx).stuck ≡ true) × ((step e tx).state ≡ tx.state) × ((step e tx).done ≡ tx.done)
unfolding step
step_stuck e tx h = ground arith

steps_stuck :
    (es : List Event) (tx : InviteClientTx)
    → tx.stuck ≡ true
    → ((steps es tx).state ≡ tx.state) × ((steps es tx).done ≡ tx.done)
unfolding steps
steps_stuck [] tx h = (refl, refl)
steps_stuck (e ∷ es) tx h =
    let (stuck, state, done) = step_stuck e tx h in
    let (state', done') = steps_stuck es (step e tx) stuck in (state' ∙ state, done' ∙ done)

failed_ack_stuck :
    (res : SipResponse) (tx : InviteClientTx)
    → tx.stuck ≡ false
    → (tx.state ≡ completed) ⊎ IsWaiting tx.state
    → at_least 300 res.status_code ≡ true
    → ((receive_response false res tx).stuck ≡ true)
      × ((receive_response false res tx).state ≡ completed)
      × ((receive_response false res tx).done ≡ tx.done)
unfolding receive_response
failed_ack_stuck res tx free live h = ground arith

-- Where the write of an ACK fails, the handler calls Terminate with the mutex locked: the
-- transaction stays in `completed` with `done` open, whatever events follow.
pub failed_ack_never_ends :
    (res : SipResponse) (tx : InviteClientTx) (es : List Event)
    → tx.stuck ≡ false
    → tx.done ≡ false
    → (tx.state ≡ completed) ⊎ IsWaiting tx.state
    → at_least 300 res.status_code ≡ true
    → ((steps es (receive_response false res tx)).state ≡ completed)
      × ((steps es (receive_response false res tx)).done ≡ false)
failed_ack_never_ends res tx es free o live h =
    let (stuck, state, done) = failed_ack_stuck res tx free live h in
    let (state', done') = steps_stuck es (receive_response false res tx) stuck in
    (state' ∙ state, done' ∙ (done ∙ o))
