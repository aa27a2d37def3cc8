-- ===== src/Tx/InviteClient/Diagram.antt =====
-- The states of the INVITE client transaction and the moves between them.
use xylitol.Base.{
  List, [], ◌∷◌, ◌≡◌, refl, arith, Bool, ◌&&◌, not, ℤ, at_least, if◌then◌else◌, none, some,
}
use xylitol.Tx.InviteClient.{
  State, calling, proceeding, completed, terminated, InviteClientTx, Event, step, steps, received,
  timer_a_fires, timer_b_fires, timer_d_fires, response_read, terminate_called,
}
use xylitol.Tx.Common.{is_reliable, armed}

-- RFC 3261 figure 5 for a response with this status. `passes` says that `completed` is left at once:
-- the transport is reliable, and the ACK was written.
abbrev pub on_status : Bool → ℤ → State → State
on_status passes status terminated = terminated
on_status passes status completed = completed
on_status passes status calling =
    if not (at_least 100 status)
    then calling
    else if not (at_least 200 status)
    then proceeding
    else if not (at_least 300 status)
    then terminated
    else if passes
    then terminated
    else completed
on_status passes status proceeding =
    if not (at_least 200 status)
    then proceeding
    else if not (at_least 300 status)
    then terminated
    else if passes
    then terminated
    else completed

-- Where each event leads. Timer B ends the transaction in every state in which it runs, where the
-- figure has it in `calling` only, and the end waits for room in the channel `responses`.
abbrev pub next_state : Event → InviteClientTx → State
next_state (received written res) tx =
    on_status (is_reliable tx.proto && written) res.status_code tx.state
next_state (timer_a_fires written) tx = tx.state
next_state timer_b_fires tx = elim tx.timer_b [
  | armed i ↦ elim tx.responses [ none ↦ terminated | some res ↦ tx.state ]
  | _ ↦ tx.state
]
next_state timer_d_fires tx = elim tx.timer_d [ armed i ↦ terminated | _ ↦ tx.state ]
next_state response_read tx = elim tx.responses [
  | none ↦ tx.state
  | some res ↦ elim tx.waiting [ [] ↦ tx.state | w ∷ ws ↦ terminated ]
]
next_state terminate_called tx = terminated

pub step_terminated :
    (e : Event) (tx : InviteClientTx)
    → tx.state ≡ terminated
    → ((step e tx).state ≡ terminated) × ((step e tx).sent ≡ tx.sent)
unfolding step
step_terminated e tx h = ground arith

-- A terminated transaction stays so and writes nothing more to the transport, whatever events come.
pub steps_terminated :
    (es : List Event) (tx : InviteClientTx)
    → tx.state ≡ terminated
    → ((steps es tx).state ≡ terminated) × ((steps es tx).sent ≡ tx.sent)
unfolding steps
steps_terminated [] tx h = (h, refl)
steps_terminated (e ∷ es) tx h =
    let (state, sent) = step_terminated e tx h in
    let (state', sent') = steps_terminated es (step e tx) state in (state', cc)
