-- ===== src/Tx/InviteClient/Schedule.antt =====
-- Timer A against timer B: how often an INVITE is sent when no response comes.
use xylitol.Base.{
  ℕ, zero, suc, ◌+◌, ◌*◌, ◌^◌, ◌≤◌, ◌<◌, true, false, List, [], ◌∷◌, ◌≡◌, ap, ◌∙◌, ◌↔◌, arith,
  length,
}
use native.Mathlib.Nat.{pow-suc}
use xylitol.Tx.Common.{t1, is_reliable, armed}
use xylitol.Tx.InviteClient.{calling, InviteClientTx, Event, timer_a_fires, step, steps, run}

-- `n` times timer A, each write successful.
abbrev pub retransmissions : ℕ → List Event
retransmissions zero = []
retransmissions (suc n) = timer_a_fires true ∷ retransmissions n

-- Timer A runs with interval `i`, and nothing has been received.
abbrev pub IsCalling : ℕ → ℕ → InviteClientTx → Type 0
IsCalling i n tx =
    (tx.stuck ≡ false)
    × (tx.state ≡ calling)
    × (is_reliable tx.proto ≡ false)
    × (tx.timer_a ≡ armed i)
    × (length tx.sent ≡ n)

step-IsCalling :
    (i n : ℕ) (tx : InviteClientTx)
    → IsCalling i n tx
    → IsCalling (i * 2) (suc n) (step (timer_a_fires true) tx)
unfolding step
step-IsCalling i n tx h = ground arith

steps-IsCalling :
    (k i n : ℕ) (tx : InviteClientTx)
    → IsCalling i n tx
    → IsCalling (i * 2 ^ k) (n + k) (steps (retransmissions k) tx)
unfolding steps
steps-IsCalling zero i n tx h = ground arith
steps-IsCalling (suc k) i n tx h =
    let (free, state, unreliable, timer, sent) =
      steps-IsCalling k (i * 2) (suc n) (step (timer_a_fires true) tx) (step-IsCalling i n tx h) in
    let doubled : i * 2 * 2 ^ k ≡ i * 2 ^ suc k = rw pow-suc (omega arith) in
    (free, state, unreliable, timer ∙ ap armed doubled, omega arith)

run-IsCalling :
    (tx : InviteClientTx)
    → tx.stuck ≡ false
    → tx.state ≡ calling
    → is_reliable tx.proto ≡ false
    → tx.sent ≡ []
    → IsCalling t1 1 (run true tx)
unfolding run
run-IsCalling tx free state unreliable sent = ground arith

-- When the `k`-th run of timer A ends, counted from the first write, if it starts with interval `i`
-- and doubles.
abbrev pub elapsed : ℕ → ℕ → ℕ
elapsed i zero = 0
elapsed i (suc k) = i + elapsed (i * 2) k

elapsed_closed : (i k : ℕ) → elapsed i k + i ≡ i * 2 ^ k
elapsed_closed i zero = omega arith
elapsed_closed i (suc k) = rw pow-suc (omega (arith, elapsed_closed (i * 2) k))

pow_positive : (k : ℕ) → 1 ≤ 2 ^ k
pow_positive zero = omega arith
pow_positive (suc k) = rw pow-suc (omega (arith, pow_positive k))

pow_below : (k : ℕ) → 500 * 2 ^ k < 32500 ↔ k ≤ 6
pow_below zero = (λ h. omega arith, λ h. omega arith)
pow_below (suc zero) = (λ h. omega arith, λ h. omega arith)
pow_below (suc (suc zero)) = (λ h. omega arith, λ h. omega arith)
pow_below (suc (suc (suc zero))) = (λ h. omega arith, λ h. omega arith)
pow_below (suc (suc (suc (suc zero)))) = (λ h. omega arith, λ h. omega arith)
pow_below (suc (suc (suc (suc (suc zero))))) = (λ h. omega arith, λ h. omega arith)
pow_below (suc (suc (suc (suc (suc (suc zero)))))) = (λ h. omega arith, λ h. omega arith)
pow_below (suc (suc (suc (suc (suc (suc (suc k))))))) =
    let large : 128 ≤ 2 ^ suc (suc (suc (suc (suc (suc (suc k)))))) =
      simp pow-suc (omega (arith, pow_positive k)) in
    (λ h. omega arith, λ h. omega arith)

-- On an unreliable transport where no response comes and every write succeeds, after `k` runs of
-- timer A the INVITE has been sent `k + 1` times and the next run has the interval `500 * 2 ^ k`;
-- and the `k`-th run ends before timer B, armed for 32 seconds, exactly where `k` is at most 6: so
-- the INVITE is sent seven times.
pub invite_schedule :
    (k : ℕ) (tx : InviteClientTx)
    → tx.stuck ≡ false
    → tx.state ≡ calling
    → is_reliable tx.proto ≡ false
    → tx.sent ≡ []
    → let t = steps (retransmissions k) (run true tx) in
      ((run true tx).timer_b ≡ armed 32000)
      × (t.state ≡ calling)
      × (length t.sent ≡ suc k)
      × (t.timer_a ≡ armed (500 * 2 ^ k))
      × (elapsed 500 k < 32000 ↔ k ≤ 6)
invite_schedule k tx free state unreliable sent =
    let (free', state', unreliable', timer, count) =
      steps-IsCalling k t1 1 (run true tx) (run-IsCalling tx free state unreliable sent) in
    let closed = elapsed_closed 500 k in
    (
      unfold run in ground arith,
      state',
      omega arith,
      timer,
      (λ h. (pow_below k).0 (omega arith), λ h. omega (arith, (pow_below k).1 h)),
    )
