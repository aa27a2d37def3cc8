-- ===== src/Server/Listen.antt =====
-- `Run` and `ListenAddr`: the address of the server, and the loops that read from its sockets.
--
-- The sockets, the resolver and the end of the context are not code of the repository: what their
-- calls return is given.
pub mod Datagrams
use xylitol.Base.{
  ℕ, Bool, true, false, List, [], ◌∷◌, ◌++◌, Option, none, some, if◌then◌else◌, Bytes, codes, take,
  pos, Error, Result, ok, err, panic, could_not_resolve, could_not_listen,
}
use xylitol.Text.{itoa}
use xylitol.Transport.{Transport, udp}
use xylitol.Transport.Udp.{new_udp_transport}
use xylitol.Server.State.{SipServer}

-- What `net.ResolveUDPAddr` finds: the printed form of the address, its port, and whether its IP
-- address is the unspecified one.
pub record UdpAddr : Type 0 where
  pub text : Bytes
  pub port : ℕ
  pub is_unspecified : Bool

-- The address that stands in the headers.
unfoldable pub listen_address : UdpAddr → Bytes
unfolding itoa
listen_address a = if a.is_unspecified then codes "127.0.0.1:" ++ itoa (pos a.port) else a.text

-- The start of `Run`; `split` stands for `net.SplitHostPort`.
unfoldable pub set_listen_addr :
    (Bytes → Bytes × Bytes) → Option UdpAddr → SipServer → Result SipServer
unfolding listen_address
set_listen_addr split none s = err could_not_resolve
set_listen_addr split (some a) s =
    let address = listen_address a in
    ok (record s {
      listen_addr = address;
      listen_host = (split address).0;
      listen_port = (split address).1;
    })

unfoldable pub get_listen_addr : SipServer → Bytes
get_listen_addr s = s.listen_addr

-- The buffer of the UDP loop.
abbrev pub buffer_size : ℕ
buffer_size = 4096

-- One call of `ReadFrom`: a datagram and its sender, or an error; `cancelled` says whether the
-- context has ended by then.
pub data Received : Type 0 where
  datagram : Bytes → Bytes → Received
  read_failed : Bool → Received

-- Of a datagram that is longer than the buffer, the socket hands over what fits.
unfoldable pub message_of : Bytes → Bytes
message_of bytes = take buffer_size bytes

-- A listener that has returned, or goes on.
pub data Loop : Type 0 where
  returned listening : Loop

abbrev before {ℓ} : {A : Type ℓ} → A → List A × Loop → List A × Loop
before first (others, loop) = (first ∷ others, loop)

-- The UDP loop: what is given to `dispatchMessage`, each in a goroutine of its own.
unfoldable pub read_datagrams : List Received → List (Transport × Bytes) × Loop
unfolding message_of new_udp_transport
read_datagrams [] = ([], listening)
read_datagrams (datagram bytes sender ∷ others) =
    before (udp (new_udp_transport sender), message_of bytes) (read_datagrams others)
read_datagrams (read_failed cancelled ∷ others) =
    let later = read_datagrams others in if cancelled then ([], returned) else later

-- The UDP listener, whose socket may not be opened.
unfoldable pub listen_udp : Bool → List Received → Result (List (Transport × Bytes) × Loop)
unfolding read_datagrams
listen_udp opens calls = if opens then ok (read_datagrams calls) else err could_not_listen

-- One call of `Accept`: a connection, or an error.
pub data Accepted : Type 0 where
  connection : Bytes → Accepted
  accept_failed : Bool → Accepted

-- The TCP loop: the connections given to `handleConnection`.
unfoldable pub accept_connections : List Accepted → List Bytes × Loop
accept_connections [] = ([], listening)
accept_connections (connection remote ∷ others) = before remote (accept_connections others)
accept_connections (accept_failed cancelled ∷ others) =
    let later = accept_connections others in if cancelled then ([], returned) else later

-- The TCP listener.
unfoldable pub listen_tcp : Bool → List Accepted → Result (List Bytes × Loop)
unfolding accept_connections
listen_tcp opens calls = if opens then ok (accept_connections calls) else err could_not_listen

-- `Run`: the server with its address, and what is returned; `waited` is what `Wait` of the group of
-- the two listeners returns, in the end.
unfoldable pub run :
    (Bytes → Bytes × Bytes)
    → Option UdpAddr
    → Result (Unit {0})
    → SipServer
    → SipServer × Result (Unit {0})
unfolding set_listen_addr
run split resolved waited s = elim (set_listen_addr split resolved s) [
  | ok s' ↦ (s', waited)
  | err e ↦ (s, err e)
  | panic ↦ (s, panic)
]
