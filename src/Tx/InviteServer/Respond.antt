-- ===== src/Tx/InviteServer/Respond.antt =====
-- Responses of the INVITE server transaction: first writes, retransmissions and failed writes.
use xylitol.Base.{
  if◌then◌else◌, ℕ, zero, suc, ◌+◌, true, false, not, ◌&&◌, List, [], ◌∷◌, ◌≡◌, ◌≢◌, refl, subst,
  ◌∙◌, ◌⊎◌, arith, none, some, at_least, codes, equal,
}
use native.Mathlib.Nat.{zero-add, add-zero}
use xylitol.Sip.Message.{SipRequest, SipResponse}
use xylitol.Tx.Common.{is_reliable, armed, is_armed, stop, response, Message}
use xylitol.Tx.InviteServer.{
  proceeding, completed, terminated, InviteServerTx, Event, timer_g_fires, step, steps, receive,
  run_response,
}

abbrev pub IsLive : InviteServerTx → Type 0
IsLive tx = (tx.stuck ≡ false) × (tx.running ≡ true) × (tx.state ≢ terminated)

-- What the goroutine of `run` does with a response below 700 that it takes from the channel, where
-- the write succeeds: it is written and remembered; a 2xx response ends the transaction; another
-- final
-- response completes it, with timer G at 500 milliseconds on an unreliable transport and timer H at
-- 32 seconds; and a provisional one leaves the state.
-- Where it starts a timer that runs already, the earlier one is lost and runs on.
pub response_written :
    (res : SipResponse) (tx : InviteServerTx)
    → IsLive tx
    → tx.responses ≡ some res
    → at_least 700 res.status_code ≡ false
    → let t = run_response true tx in
      (t.sent ≡ response res ∷ tx.sent)
      × (t.last_response ≡ some res)
      × (t.responses ≡ none)
      × (t.state ≡ (
          if at_least 300 res.status_code
          then completed
          else if at_least 200 res.status_code
          then terminated
          else tx.state))
      × (t.done ≡ (
          if at_least 200 res.status_code && not (at_least 300 res.status_code)
          then true
          else tx.done))
      × (t.timer_h ≡ (
          if at_least 300 res.status_code
          then armed 32000
          else if at_least 200 res.status_code
          then stop tx.timer_h
          else tx.timer_h))
      × (t.timer_g ≡ (
          if at_least 300 res.status_code
          then if is_reliable tx.proto then tx.timer_g else armed 500
          else if at_least 200 res.status_code
          then stop tx.timer_g
          else tx.timer_g))
      × (t.lost_timers_h ≡ (
          if at_least 300 res.status_code && is_armed tx.timer_h
          then suc tx.lost_timers_h
          else tx.lost_timers_h))
      × (t.lost_timers_g ≡ (
          if at_least 300 res.status_code && (not (is_reliable tx.proto) && is_armed tx.timer_g)
          then suc tx.lost_timers_g
          else tx.lost_timers_g))
unfolding run_response
response_written res tx live h below = ground arith

-- A retransmitted request is answered by the last response, before and after a final one; nothing
-- else changes, and nothing is written where the transaction user has not responded yet.
pub retransmission_answered :
    (req : SipRequest) (tx : InviteServerTx)
    → tx.stuck ≡ false
    → equal req.method (codes "ACK") ≡ false
    → (tx.state ≡ proceeding) ⊎ (tx.state ≡ completed)
    → receive true req tx
      ≡ elim tx.last_response [ none ↦ tx | some res ↦ record tx { sent = response res ∷ tx.sent } ]
unfolding receive
retransmission_answered req tx free no_ack h = ground arith

-- `n` times timer G, each write successful.
abbrev pub retransmissions : ℕ → List Event
retransmissions zero = []
retransmissions (suc n) = timer_g_fires true ∷ retransmissions n

-- The interval of the `k`-th run: it doubles from T1 up to T2.
abbrev pub interval : ℕ → ℕ
interval zero = 500
interval (suc zero) = 1000
interval (suc (suc zero)) = 2000
interval (suc (suc (suc k))) = 4000

abbrev pub copies : ℕ → Message → List Message → List Message
copies zero m sent = sent
copies (suc n) m sent = m ∷ copies n m sent

abbrev pub IsRetransmitting : ℕ → SipResponse → List Message → InviteServerTx → Type 0
IsRetransmitting k res sent tx =
    (tx.stuck ≡ false)
    × (tx.state ≡ completed)
    × (tx.last_response ≡ some res)
    × (tx.timer_g ≡ armed (interval k))
    × (tx.sent ≡ copies k (response res) sent)

step-IsRetransmitting :
    (k : ℕ) (res : SipResponse) (sent : List Message) (tx : InviteServerTx)
    → IsRetransmitting k res sent tx
    → IsRetransmitting (suc k) res sent (step (timer_g_fires true) tx)
unfolding step
step-IsRetransmitting zero res sent tx h = ground arith
step-IsRetransmitting (suc zero) res sent tx h = ground arith
step-IsRetransmitting (suc (suc zero)) res sent tx h = ground arith
step-IsRetransmitting (suc (suc (suc k))) res sent tx h = ground arith

steps-IsRetransmitting :
    (k n : ℕ) (res : SipResponse) (sent : List Message) (tx : InviteServerTx)
    → IsRetransmitting n res sent tx
    → IsRetransmitting (k + n) res sent (steps (retransmissions k) tx)
unfolding steps
steps-IsRetransmitting zero n res sent tx h = rw zero-add h
steps-IsRetransmitting (suc k) n res sent tx h =
    let later = steps (retransmissions k) (step (timer_g_fires true) tx) in
    let count : k + suc n ≡ suc k + n = omega arith in
    subst (λ m. IsRetransmitting m res sent later) count
      (steps-IsRetransmitting k (suc n) res sent (step (timer_g_fires true) tx)
        (step-IsRetransmitting n res sent tx h))

-- A completed transaction on an unreliable transport that gets no ACK writes its final response
-- once
-- more at each run of timer G, whose intervals are 500, 1000, 2000 and from then on 4000
-- milliseconds, as long as the writes succeed.
pub response_schedule :
    (k : ℕ) (res : SipResponse) (tx : InviteServerTx)
    → tx.stuck ≡ false
    → tx.state ≡ completed
    → tx.last_response ≡ some res
    → tx.timer_g ≡ armed 500
    → let t = steps (retransmissions k) tx in
      (t.state ≡ completed)
      × (t.sent ≡ copies k (response res) tx.sent)
      × (t.timer_g ≡ armed (interval k))
response_schedule k res tx free state last timer =
    let start : IsRetransmitting 0 res tx.sent tx = (free, state, last, timer, refl) in
    let (free', state', last', timer', sent') =
      rw add-zero at (steps-IsRetransmitting k 0 res tx.sent tx start) in
    (state', sent', timer')

step_stuck :
    (e : Event) (tx : InviteServerTx)
    → tx.stuck ≡ true
    → ((step e tx).stuck ≡ true)
      × ((step e tx).state ≡ tx.state)
      × ((step e tx).done ≡ tx.done)
      × ((step e tx).sent ≡ tx.sent)
unfolding step
step_stuck e tx h = ground arith

steps_stuck :
    (es : List Event) (tx : InviteServerTx)
    → tx.stuck ≡ true
    → ((steps es tx).state ≡ tx.state)
      × ((steps es tx).done ≡ tx.done)
      × ((steps es tx).sent ≡ tx.sent)
unfolding steps
steps_stuck [] tx h = (refl, refl, refl)
steps_stuck (e ∷ es) tx h =
    let (stuck, state, done, sent) = step_stuck e tx h in
    let (state', done', sent') = steps_stuck es (step e tx) stuck in
    (state' ∙ state, done' ∙ done, sent' ∙ sent)

failed_write_stuck :
    (res : SipResponse) (tx : InviteServerTx)
    → IsLive tx
    → tx.responses ≡ some res
    → ((run_response false tx).stuck ≡ true)
      × ((run_response false tx).state ≡ tx.state)
      × ((run_response false tx).done ≡ tx.done)
      × ((run_response false tx).sent ≡ tx.sent)
unfolding run_response
failed_write_stuck res tx live h = ground arith

-- Where the write of a response fails, `send` calls Terminate with the mutex locked: the
-- transaction
-- keeps its state with `done` open and writes nothing more, whatever events follow.
pub failed_write_never_ends :
    (res : SipResponse) (tx : InviteServerTx) (es : List Event)
    → IsLive tx
    → tx.done ≡ false
    → tx.responses ≡ some res
    → let t = steps es (run_response false tx) in
      (t.state ≡ tx.state) × (t.done ≡ false) × (t.sent ≡ tx.sent)
failed_write_never_ends res tx es live o h =
    let (stuck, state, done, sent) = failed_write_stuck res tx live h in
    let (state', done', sent') = steps_stuck es (run_response false tx) stuck in
    (state' ∙ state, done' ∙ (done ∙ o), sent' ∙ sent)
