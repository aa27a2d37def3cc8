-- ===== src/Tx/NonInviteClient/Schedule.antt =====
-- Timer E against timer F: how often a request is sent when no response comes.
use xylitol.Base.{
  ℕ, zero, suc, ◌+◌, ◌*◌, ◌≤◌, ◌<◌, true, false, List, [], ◌∷◌, ◌≡◌, refl, ◌↔◌, arith, length,
}
use native.Mathlib.Nat.{zero-add, add-zero, suc-add, add-suc}
use xylitol.Tx.Common.{is_reliable, armed}
use xylitol.Tx.NonInviteClient.{trying, NonInviteClientTx, Event, timer_e_fires, step, steps, run}

-- `n` times timer E, each write successful.
abbrev pub retransmissions : ℕ → List Event
retransmissions zero = []
retransmissions (suc n) = timer_e_fires true ∷ retransmissions n

-- The interval of the `k`-th run: it doubles from T1 up to T2.
abbrev pub interval : ℕ → ℕ
interval zero = 500
interval (suc zero) = 1000
interval (suc (suc zero)) = 2000
interval (suc (suc (suc k))) = 4000

abbrev pub IsTrying : ℕ → NonInviteClientTx → Type 0
IsTrying k tx =
    (tx.stuck ≡ false)
    × (tx.state ≡ trying)
    × (is_reliable tx.proto ≡ false)
    × (tx.timer_e ≡ armed (interval k))
    × (length tx.sent ≡ suc k)

step-IsTrying :
    (k : ℕ) (tx : NonInviteClientTx)
    → IsTrying k tx
    → IsTrying (suc k) (step (timer_e_fires true) tx)
unfolding step
step-IsTrying zero tx h = ground arith
step-IsTrying (suc zero) tx h = ground arith
step-IsTrying (suc (suc zero)) tx h = ground arith
step-IsTrying (suc (suc (suc k))) tx h = ground arith

steps-IsTrying :
    (k n : ℕ) (tx : NonInviteClientTx)
    → IsTrying n tx
    → IsTrying (k + n) (steps (retransmissions k) tx)
unfolding steps
steps-IsTrying zero n tx h = rw zero-add h
steps-IsTrying (suc k) n tx h =
    rw (suc-add, ← add-suc)
      (steps-IsTrying k (suc n) (step (timer_e_fires true) tx) (step-IsTrying n tx h))

run-IsTrying :
    (tx : NonInviteClientTx)
    → tx.stuck ≡ false
    → tx.state ≡ trying
    → is_reliable tx.proto ≡ false
    → tx.sent ≡ []
    → IsTrying 0 (run true tx)
unfolding run
run-IsTrying tx free state unreliable sent = ground arith

-- When the `k`-th run of timer E ends, counted from the first write.
abbrev pub elapsed : ℕ → ℕ
elapsed zero = 0
elapsed (suc k) = elapsed k + interval k

elapsed_late : (k : ℕ) → elapsed (suc (suc (suc k))) ≡ 3500 + 4000 * k
elapsed_late zero = refl
elapsed_late (suc k) = omega (arith, elapsed_late k)

elapsed_below : (k : ℕ) → elapsed k < 32000 ↔ k ≤ 10
elapsed_below zero = (λ h. omega arith, λ h. omega arith)
elapsed_below (suc zero) = (λ h. omega arith, λ h. omega arith)
elapsed_below (suc (suc zero)) = (λ h. omega arith, λ h. omega arith)
elapsed_below (suc (suc (suc k))) =
    (λ h. omega (arith, elapsed_late k), λ h. omega (arith, elapsed_late k))

-- On an unreliable transport where no response comes and every write succeeds, after `k` runs of
-- timer E the request has been sent `k + 1` times, the next interval is 500, 1000, 2000 or from
-- then
-- on 4000 milliseconds, and the `k`-th run ends before timer F, armed for 32 seconds, exactly where
-- `k` is at most 10: so the request is sent eleven times.
pub request_schedule :
    (k : ℕ) (tx : NonInviteClientTx)
    → tx.stuck ≡ false
    → tx.state ≡ trying
    → is_reliable tx.proto ≡ false
    → tx.sent ≡ []
    → let t = steps (retransmissions k) (run true tx) in
      ((run true tx).timer_f ≡ armed 32000)
      × (t.state ≡ trying)
      × (length t.sent ≡ suc k)
      × (t.timer_e ≡ armed (interval k))
      × (elapsed k < 32000 ↔ k ≤ 10)
request_schedule k tx free state unreliable sent =
    let (free', state', unreliable', timer, count) =
      rw add-zero at
        (steps-IsTrying k 0 (run true tx) (run-IsTrying tx free state unreliable sent)) in
    (unfold run in ground arith, state', count, timer, elapsed_below k)
