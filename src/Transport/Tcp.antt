-- ===== src/Transport/Tcp.antt =====
-- `TCPTransport` (internal/sip/transport.go).
use xylitol.Base.{
  ℕ, Bytes, if◌then◌else◌, ltb, length, codes, Result, ok, err, write_failed, short_write,
}
use xylitol.Transport.Socket.{Written}

-- The connection, by the address that its `RemoteAddr` returns.
pub record TcpTransport : Type 0 where
  pub remote_addr : Bytes

unfoldable pub new_tcp_transport : Bytes → TcpTransport
new_tcp_transport remote_addr = record { remote_addr = remote_addr }

-- A short write is an error.
unfoldable pub write : Bytes → Written → TcpTransport → Result ℕ
write p w t =
    if w.fails
    then err write_failed
    else if ltb w.count (length p)
    then err short_write
    else ok w.count

unfoldable pub get_proto : TcpTransport → Bytes
get_proto t = codes "TCP"

unfoldable pub get_remote_addr : TcpTransport → Bytes
get_remote_addr t = t.remote_addr

-- The connection is closed; `closed` is what it says.
unfoldable pub close : Result (Unit {0}) → TcpTransport → Result (Unit {0})
close closed t = closed
