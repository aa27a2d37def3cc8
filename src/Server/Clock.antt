-- ===== src/Server/Clock.antt =====
-- Go's clock in nanoseconds, on a scale that begins more than 292 years ago, so that no sum with a
-- `time.Duration`, an `int64`, falls below its zero.
use xylitol.Base.{
  ℕ, suc, ◌+◌, ◌-◌, ◌*◌, ◌%◌, ◌^◌, ltb, if◌then◌else◌, ℤ, pos, negsuc, neg, ◌≡◌, ◌≤◌, arith,
}

abbrev pub second : ℕ
second = 1_000_000_000

-- A product in 64 bits, as a signed integer.
abbrev signed : ℕ → ℤ
signed n = if ltb n (2 ^ 63) then pos n else neg (2 ^ 64 - n)

-- `time.Duration(n) * time.Second`
unfoldable pub seconds : ℤ → ℤ
seconds (pos n) = signed ((n * second) % 2 ^ 64)
seconds (negsuc n) = signed ((2 ^ 64 - (suc n * second) % 2 ^ 64) % 2 ^ 64)

-- `t.Add(d)`
unfoldable pub add : ℕ → ℤ → ℕ
add t (pos n) = t + n
add t (negsuc n) = t - suc n

-- A number of seconds that does not overflow a `time.Duration`.
pub add-seconds : (t n : ℕ) → n ≤ 9223372036 → add t (seconds (pos n)) ≡ t + n * second
unfolding add seconds
add-seconds t n h = ground arith
