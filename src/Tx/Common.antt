-- ===== src/Tx/Common.antt =====
-- What the transactions share: timers, messages written to the transport, reliable transports.
--
-- Time is in milliseconds. A handler is one step, since it runs under the mutex `tx.mu`. The
-- outcome of each `transport.Write` is an argument of the step, `true` where the write succeeds.
use xylitol.Base.{ℕ, ◌||◌, Bool, true, false, [], Bytes, codes, equal, pos}
use xylitol.Text.{to_upper}
use xylitol.Sip.Message.{SipRequest, SipResponse}

abbrev pub t1 : ℕ
t1 = 500

abbrev pub t2 : ℕ
t2 = 4000

abbrev pub t4 : ℕ
t4 = 5000

unfoldable pub is_reliable : Bytes → Bool
unfolding to_upper equal
is_reliable proto =
    equal (to_upper proto) (codes "TCP")
    || equal (to_upper proto) (codes "SCTP")
    || equal (to_upper proto) (codes "TLS")

-- What is written to the transport.
pub data Message : Type 0 where
  request : SipRequest → Message
  response : SipResponse → Message

-- A `*time.Timer`: nil, running with its interval, run out, or stopped.
pub data Timer : Type 0 where
  unset expired stopped : Timer
  armed : ℕ → Timer

-- `if tx.timer != nil { tx.timer.Stop() }`
abbrev pub stop : Timer → Timer
stop (armed i) = stopped
stop t = t

abbrev pub is_armed : Timer → Bool
is_armed (armed i) = true
is_armed t = false

-- The responses that a client transaction makes up when it cannot send or is not answered.
abbrev pub synthetic : ℕ → Bytes → SipResponse
synthetic code reason = record {
  proto = [];
  status_code = pos code;
  reason = reason;
  headers = [];
  body = [];
}

abbrev pub unavailable : SipResponse
unavailable = synthetic 503 (codes "Service Unavailable")

abbrev pub timeout : SipResponse
timeout = synthetic 408 (codes "Request Timeout")

-- What `Respond` of a server transaction does: it returns nil or an error, or it waits.
pub data Outcome : Type 0 where
  accepted refused waits : Outcome
