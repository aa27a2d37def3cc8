-- ===== src/Tx/NonInviteServer/Respond.antt =====
-- The responses of the non-INVITE server transaction: at most one final response.
use xylitol.Base.{
  Bool, ℤ, Bytes, ok, true, false, not, ◌&&◌, List, [], ◌∷◌, ◌≡◌, refl, ◌∙◌, ◌⊎◌, arith, Option,
  none, some, inl, inr, sym, subst, Option-cases, at_least, if◌then◌else◌,
}
use xylitol.Sip.Message.{SipRequest, SipResponse}
use xylitol.Tx.Common.{is_reliable, armed, stop, response, Message}
use xylitol.Tx.NonInviteServer.{
  new_non_invite_server_tx, State, trying, proceeding, completed, terminated, NonInviteServerTx,
  Event, step, steps, response_taken, timer_j_fires, terminate_called, run_response,
}

-- RFC 3261 figure 8 for the write of a response with this status: on a reliable transport
-- `completed` is left at once.
abbrev pub on_status : Bool → ℤ → State → State
on_status reliable status trying =
    if not (at_least 200 status) then proceeding else if reliable then terminated else completed
on_status reliable status proceeding =
    if not (at_least 200 status) then proceeding else if reliable then terminated else completed
on_status reliable status s = s

-- Where each event leads.
abbrev pub next_state : Event → NonInviteServerTx → State
next_state (response_taken written) tx = elim tx.responses [
  | none ↦ tx.state
  | some res ↦
      if tx.running && written
      then on_status (is_reliable tx.proto) res.status_code tx.state
      else tx.state
]
next_state timer_j_fires tx = elim tx.timer_j [ armed i ↦ terminated | _ ↦ tx.state ]
next_state terminate_called tx = terminated
next_state _ tx = tx.state

abbrev pub IsFinal : Option SipResponse → Type 0
IsFinal none = ⊥
IsFinal (some res) = at_least 200 res.status_code ≡ true

pub record IsValid (tx : NonInviteServerTx) : Type 0 where
  pub ends : tx.state ≡ terminated → tx.done ≡ true
  pub ended : tx.done ≡ true → tx.state ≡ terminated
  pub answered : tx.state ≡ completed → IsFinal tx.last_response
  pub loops : tx.done ≡ false → tx.running ≡ true

pub step-IsValid : (e : Event) (tx : NonInviteServerTx) → IsValid tx → IsValid (step e tx)
unfolding step
step-IsValid e tx h = ground arith

-- A new transaction is valid.
pub new_non_invite_server_tx-IsValid :
    (req : SipRequest) (proto : Bytes) (tx : NonInviteServerTx)
    → new_non_invite_server_tx req proto ≡ ok tx
    → IsValid tx
unfolding new_non_invite_server_tx
new_non_invite_server_tx-IsValid req proto tx h = ground arith

abbrev pub IsOver : NonInviteServerTx → Type 0
IsOver tx = ((tx.state ≡ completed) × IsFinal tx.last_response) ⊎ (tx.state ≡ terminated)

-- Writes of the last response, and of nothing else, lead from the first list to the second.
pub data Resends (last : Option SipResponse) (before : List Message) : List Message → Type 0 where
  nothing : Resends last before before
  again :
      {sent : List Message} (res : SipResponse)
      → last ≡ some res
      → Resends last before sent
      → Resends last before (response res ∷ sent)

-- One event writes the last response at most.
abbrev ResendsOne : Option SipResponse → List Message → List Message → Type 0
ResendsOne last before sent =
    (sent ≡ before) ⊎ ((res : SipResponse) × (last ≡ some res) × (sent ≡ response res ∷ before))

step-IsOver :
    (e : Event) (tx : NonInviteServerTx)
    → IsOver tx
    → IsOver (step e tx) × ((step e tx).last_response ≡ tx.last_response)
unfolding step
step-IsOver e tx h = ground arith

step_sent :
    (e : Event) (tx : NonInviteServerTx) (res : SipResponse)
    → tx.last_response ≡ some res
    → IsOver tx
    → ((step e tx).sent ≡ tx.sent) ⊎ ((step e tx).sent ≡ response res ∷ tx.sent)
unfolding step
step_sent e tx res last h = ground arith

step-ResendsOne :
    (e : Event) (tx : NonInviteServerTx)
    → IsOver tx
    → ResendsOne tx.last_response tx.sent (step e tx).sent
unfolding step
step-ResendsOne e tx h = elim (Option-cases tx.last_response) [
  | inl none_yet ↦ inl (ground arith)
  | inr (res, last) ↦ elim (step_sent e tx res last h) [
    | inl same ↦ inl same
    | inr more ↦ inr (res, last, more)
  ]
]

Resends-trans :
    {last : Option SipResponse} {a b c : List Message}
    → Resends last a b
    → Resends last b c
    → Resends last a c
Resends-trans h nothing = h
Resends-trans h (again res last more) = again res last (Resends-trans h more)

ResendsOne-Resends :
    {last : Option SipResponse} {a b : List Message} → ResendsOne last a b → Resends last a b
ResendsOne-Resends {last} {a} (inl same) = subst (Resends last a) (sym same) nothing
ResendsOne-Resends {last} {a} (inr (res, is_last, more)) =
    subst (Resends last a) (sym more) (again res is_last nothing)

-- After the first final response, or the end, no event replaces the last response, and all that is
-- written to the transport from then on is this response again, whatever else the transaction user
-- sends.
pub steps_keep_final :
    (es : List Event) (tx : NonInviteServerTx)
    → IsOver tx
    → IsOver (steps es tx)
      × ((steps es tx).last_response ≡ tx.last_response)
      × Resends tx.last_response tx.sent (steps es tx).sent
unfolding steps
steps_keep_final [] tx h = (h, refl, nothing)
steps_keep_final (e ∷ es) tx h =
    let (over, last) = step-IsOver e tx h in
    let (over', last', more) = steps_keep_final es (step e tx) over in
    (
      over',
      last' ∙ last,
      Resends-trans (ResendsOne-Resends (step-ResendsOne e tx h))
          (subst (λ r. Resends r (step e tx).sent (steps es (step e tx)).sent) last more),
    )

-- A response taken from the channel before the final one, its write successful, is written and
-- remembered. A provisional one moves the transaction to `proceeding`. A final one completes it for
-- 32 seconds on an unreliable transport, and terminates it on a reliable one.
pub response_taken_written :
    (res : SipResponse) (tx : NonInviteServerTx)
    → tx.stuck ≡ false
    → tx.running ≡ true
    → (tx.state ≡ trying) ⊎ (tx.state ≡ proceeding)
    → tx.responses ≡ some res
    → let t = run_response true tx in
      (t.sent ≡ response res ∷ tx.sent)
      × (t.last_response ≡ some res)
      × (t.state ≡ (
          if not (at_least 200 res.status_code)
          then proceeding
          else if is_reliable tx.proto
          then terminated
          else completed))
      × (t.timer_j ≡ (
          if not (at_least 200 res.status_code)
          then tx.timer_j
          else if is_reliable tx.proto
          then stop tx.timer_j
          else armed 32000))
      × (t.done ≡ (if at_least 200 res.status_code && is_reliable tx.proto then true else tx.done))
unfolding run_response
response_taken_written res tx free runs live h = ground arith
