-- ===== src/Transport.antt =====
-- The two transports (internal/sip/transport.go) and the random identifiers of transaction.go.
--
-- A socket is known by the outcome of a write: how many bytes it took, and whether it failed.
-- Random
-- bytes are an argument.
pub mod Socket
pub mod Udp
pub mod Tcp
pub mod Branches
use xylitol.Base.{
  ℕ, ◌+◌, ◌-◌, ◌/◌, ◌%◌, Bool, true, false, not, List, [], ◌∷◌, ◌++◌, Option, none, some,
  if◌then◌else◌, ltb, equal, Bytes, codes, length, Result, ok, err, write_failed, short_write,
  protocol_not_supported, could_not_resolve,
}
use xylitol.Text.{to_upper}
use xylitol.Transport.Socket.{Written}
use xylitol.Transport.Udp.{UdpTransport, new_udp_transport}
use xylitol.Transport.Tcp.{TcpTransport}
use xylitol.Transport.Udp
use xylitol.Transport.Tcp

-- The interface `Transport`, by its two implementations.
pub data Transport : Type 0 where
  udp : UdpTransport → Transport
  tcp : TcpTransport → Transport

unfoldable pub get_proto : Transport → Bytes
unfolding Udp.get_proto Tcp.get_proto
get_proto (udp t) = Udp.get_proto t
get_proto (tcp t) = Tcp.get_proto t

unfoldable pub get_remote_addr : Transport → Bytes
unfolding Udp.get_remote_addr Tcp.get_remote_addr
get_remote_addr (udp t) = Udp.get_remote_addr t
get_remote_addr (tcp t) = Tcp.get_remote_addr t

unfoldable pub write : Bytes → Written → Transport → Result ℕ
unfolding Udp.write Tcp.write
write p w (udp t) = Udp.write p w t
write p w (tcp t) = Tcp.write p w t

unfoldable pub close : Result (Unit {0}) → Transport → Result (Unit {0})
unfolding Udp.close Tcp.close
close closed (udp t) = Udp.close t
close closed (tcp t) = Tcp.close closed t

-- `TransportFor`, where `resolve` stands for `net.ResolveUDPAddr` on `net.JoinHostPort(host,
-- port)`.
unfoldable pub transport_for :
    (Bytes → Bytes → Option Bytes) → Bytes → Bytes → Bytes → Result Transport
unfolding to_upper equal new_udp_transport
transport_for resolve host port proto =
    if not (equal (to_upper proto) (codes "UDP"))
    then err protocol_not_supported
    else elim (resolve host port) [
      | none ↦ err could_not_resolve
      | some address ↦ ok (udp (new_udp_transport address))
    ]

-- `hex.EncodeToString`
unfoldable pub hex_digit : ℕ → ℕ
hex_digit d = if ltb d 10 then b'0' + d else b'a' + (d - 10)

unfoldable pub hex : Bytes → Bytes
unfolding hex_digit
hex [] = []
hex (b ∷ bs) = hex_digit (b / 16) ∷ hex_digit (b % 16) ∷ hex bs

abbrev pub magic_cookie : Bytes
magic_cookie = codes "z9hG4bK"

-- The bytes that `rand.Read` puts into a slice of this length.
abbrev pub Random : Type 0
Random = ℕ → Bytes

unfoldable pub generate_nonce : Random → ℕ → Bytes
unfolding hex
generate_nonce random n = hex (random n)

unfoldable pub generate_call_id : Random → Bytes
unfolding generate_nonce
generate_call_id random = generate_nonce random 16

unfoldable pub generate_tag : Random → Bytes
unfolding generate_nonce
generate_tag random = generate_nonce random 8

unfoldable pub generate_branch_id : Random → Bytes
unfolding hex
generate_branch_id random = magic_cookie ++ hex (random 8)
