-- ===== src/Transport/Udp.antt =====
-- `UDPTransport` (internal/sip/transport.go).
use xylitol.Base.{ℕ, Bytes, if◌then◌else◌, codes, Result, ok, err, write_failed}
use xylitol.Transport.Socket.{Written}

-- The socket is the listener's, which all transports share.
pub record UdpTransport : Type 0 where
  pub dest_addr : Bytes

unfoldable pub new_udp_transport : Bytes → UdpTransport
new_udp_transport dest_addr = record { dest_addr = dest_addr }

-- What the socket says is passed on.
unfoldable pub write : Bytes → Written → UdpTransport → Result ℕ
write p w t = if w.fails then err write_failed else ok w.count

unfoldable pub get_proto : UdpTransport → Bytes
get_proto t = codes "UDP"

unfoldable pub get_remote_addr : UdpTransport → Bytes
get_remote_addr t = t.dest_addr

-- The shared socket stays open.
unfoldable pub close : UdpTransport → Result (Unit {0})
close t = ok tt
