-- ===== src/Transport/Socket.antt =====
-- The sockets under the two transports, which are the operating system's: what a write returns, and
-- whether a close fails.
use xylitol.Base.{ℕ, Bool}

-- What `conn.Write` or `conn.WriteTo` returns.
pub record Written : Type 0 where
  pub count : ℕ
  pub fails : Bool
