-- ===== src/Tx/NonInviteClient/Diagram.antt =====
-- The states of the non-INVITE client transaction, and its end.
use xylitol.Base.{
  if◌then◌else◌, true, false, List, [], ◌∷◌, ◌≡◌, refl, ◌∙◌, ◌⊎◌, arith, Bool, not, ℤ, none, some,
  at_least,
}
use xylitol.Sip.Message.{SipResponse}
use xylitol.Tx.Common.{is_reliable, armed, t4, stop}
use xylitol.Tx.NonInviteClient.{
  State, trying, proceeding, completed, terminated, NonInviteClientTx, Event, step, steps, received,
  timer_e_fires, timer_f_fires, timer_k_fires, response_read, terminate_called, receive_response,
}

-- RFC 3261 figure 6 for a response with this status: on a reliable transport `completed` is left at
-- once.
abbrev pub on_status : Bool → ℤ → State → State
on_status reliable status trying =
    if not (at_least 200 status) then proceeding else if reliable then terminated else completed
on_status reliable status proceeding =
    if not (at_least 200 status) then proceeding else if reliable then terminated else completed
on_status reliable status s = s

-- Where each event leads.
abbrev pub next_state : Event → NonInviteClientTx → State
next_state (received res) tx = on_status (is_reliable tx.proto) res.status_code tx.state
next_state (timer_e_fires written) tx = tx.state
next_state timer_f_fires tx = elim tx.timer_f [
  | armed i ↦ elim tx.responses [ none ↦ terminated | some res ↦ tx.state ]
  | _ ↦ tx.state
]
next_state timer_k_fires tx = elim tx.timer_k [ armed i ↦ terminated | _ ↦ tx.state ]
next_state response_read tx = elim tx.responses [
  | none ↦ tx.state
  | some res ↦ elim tx.waiting [ [] ↦ tx.state | w ∷ ws ↦ terminated ]
]
next_state terminate_called tx = terminated

abbrev pub IsWaiting : State → Type 0
IsWaiting s = (s ≡ trying) ⊎ (s ≡ proceeding)

-- The first final response to a waiting transaction: the transaction user is given the response
-- where its channel has room, timers E and F are stopped, and the transaction ends at once on a
-- reliable transport and 5 seconds later on another.
pub final_response_completes :
    (res : SipResponse) (tx : NonInviteClientTx)
    → tx.stuck ≡ false
    → IsWaiting tx.state
    → at_least 200 res.status_code ≡ true
    → let t = receive_response res tx in
      (t.responses ≡ elim tx.responses [ none ↦ some res | some r ↦ some r ])
      × (t.timer_e ≡ stop tx.timer_e)
      × (t.timer_f ≡ stop tx.timer_f)
      × (t.state ≡ (if is_reliable tx.proto then terminated else completed))
      × (t.done ≡ (if is_reliable tx.proto then true else tx.done))
      × (t.timer_k ≡ (if is_reliable tx.proto then stop tx.timer_k else armed t4))
unfolding receive_response
final_response_completes res tx free live h = ground arith

abbrev pub IsOver : State → Type 0
IsOver s = (s ≡ completed) ⊎ (s ≡ terminated)

step-IsOver :
    (e : Event) (tx : NonInviteClientTx)
    → IsOver tx.state
    → IsOver (step e tx).state × ((step e tx).sent ≡ tx.sent)
unfolding step
step-IsOver e tx h = ground arith

-- Once completed or terminated, the transaction stays in one of these states and sends the request
-- no more, whatever events come.
pub steps-IsOver :
    (es : List Event) (tx : NonInviteClientTx)
    → IsOver tx.state
    → IsOver (steps es tx).state × ((steps es tx).sent ≡ tx.sent)
unfolding steps
steps-IsOver [] tx h = (h, refl)
steps-IsOver (e ∷ es) tx h =
    let (over, sent) = step-IsOver e tx h in
    let (over', sent') = steps-IsOver es (step e tx) over in (over', sent' ∙ sent)
