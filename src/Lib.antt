-- ===== src/Lib.antt =====
-- A verification library of xylitol3, a SIP server in Go: the parser and printer of SIP messages, the
-- four transactions of RFC 3261, the registrar with Digest authentication, the dispatch of messages
-- on UDP and on TCP streams, the back-to-back user agent (B2BUA) that bridges two legs of a call,
-- the guidance application that plays a file to a caller, the user store, and the web interface.
--
-- The parts and their interplay. A transport hands a message to `dispatchMessage`. A response goes
-- to the client transaction of its top Via branch. A request is parsed, checked for a loop, and
-- goes to the B2BUA of its dialog, to the server transaction of its branch, or to a new one, whose
-- request is then handled: REGISTER by the registrar, INVITE by `handleInvite`, which rejects it,
-- starts the guidance application, or makes a B2BUA for the first contact of the callee. The B2BUA
-- makes an INVITE client transaction for its other leg and mediates the responses. The web interface
-- shares the tables of users and settings with the registrar and with the start of the program, gives
-- new guidance settings to the running server, and asks a B2BUA to disconnect its call.
--
-- Which file models which part:
--   Base       helpers: native numbers with Boolean tests, signed integers, lists, and `Result`, the
--              outcome of a Go function: a value, an error, or a run-time panic
--   Text       the functions of Go's strings and strconv that the server calls, with their laws
--   Dict       a Go map with strings as keys
--   Sip        internal/sip/parser.go and internal/sip/response.go: Message (SIPRequest, SIPResponse,
--              String), Request (ParseSIPRequest), Response (ParseSIPResponse), Uri (SIPURI), Via
--              (Via, TopVia, AllVias, PopVia), Fields (Session-Expires, Min-SE, Expires, tags, Digest
--              parameters), Build (BuildResponse, BuildAck, createCancelRequest)
--   Tx         internal/sip/transaction.go and transaction_*.go: InviteClient, InviteServer,
--              NonInviteClient, NonInviteServer. Each is a record of the fields of the Go struct, one
--              function for each method and timer callback, and `step` on the events that reach it
--   Server     internal/sip/server.go, internal/sip/digest.go and the user record of
--              internal/storage/storage.go: Contacts and Registrar (handleRegister and what it calls),
--              Nonces, Sessions, Clock, Stream (parseContentLength), State (SIPServer and the
--              transaction manager), Dispatch (handleRequest, handleResponse), Invite (handleInvite),
--              Connection (handleConnection), Serve (handleTransaction, NewClientTx), Calls
--              (GetActiveSessions, DisconnectSession), Listen (Run and its two loops)
--   B2bua      internal/sip/b2bua.go: Requests, Setup (Run), Mediate (mediate), Life (dialogs,
--              cleanup, in-dialog requests), Ending (Cancel, Disconnect, the last cases of mediate)
--   System     the running server: the goroutines on the maps of SIPServer (internal/sip/server.go,
--              internal/sip/transaction.go with the goroutine of Add) as a step relation
--   Guidance   internal/sip/app_guidance.go: the answer of Run, sendBye, Stream (streamWavFile), and
--              Session (the callback of the connection state and the end of Run)
--   Transport  internal/sip/transport.go (Udp, Tcp), TransportFor, and the random identifiers of
--              internal/sip/transaction.go
--   Storage    internal/storage/storage.go over the interface `Database` of SQL statements and JSON,
--              with laws of a table with a key and of decoding what was encoded from
--              valid UTF-8
--   Web        internal/web/server.go: Users (users and sessions), Settings, Routes, Running; and
--              Startup with Main, cmd/server/main.go
--   Tests      the code on concrete messages, and each theorem at a concrete input
--
-- How the state is modelled. A transaction holds its timers as values (unset, armed with a number of
-- milliseconds, expired, stopped), its channels as buffers of size one, `done` as a flag, and `sent`,
-- the messages written so far. `stuck` says that a goroutine waits for a mutex that it holds itself,
-- which happens where `send` calls Terminate with the mutex locked; nothing that needs the mutex
-- happens from then on. The steps are those that the mutex serialises, in any order; the outcome of
-- a write is an argument. A Go map is a list of pairs in the order in which Go happens to range over
-- it. Time is a number of nanoseconds, and `time.Duration` wraps at 64 bits. A Go `int` is a signed
-- number, and its limits are checked where the code adds to it.
--
-- Bounds and fuel: loops are structural recursion on lists, but for two. The printer of numbers has
-- one digit position for each unit of the number, which is more than the digits. The loop over a TCP
-- stream has one unit of fuel more than the stream has bytes, and every message takes a byte. The
-- counters of RTP packets and the CSeq of a guidance call wrap at 16 and at 32 bits.
--
-- The running server goes from state to state by `server_step`: a message from a socket, an event of a
-- transaction under a branch (the goroutine of a client transaction, which sends its request and arms
-- its timers, included), the goroutine of a transaction that is done, `handleTransaction`, a new client
-- transaction, a step of a B2BUA, a session that is made or expires, and new settings, in any order.
-- `handleInvite` reads the maps in an earlier state than the one that it writes, and the addition of a
-- transaction behind a look-up in vain is a step of its own, as the locks of the source allow.
-- `handleRegister` is one step there. `Reach` is what the server gets to.
--
-- What is not modelled: logging, signals, the shutdown of the sockets, and the HTML templates.
-- Arguments of the model, since they are not code of the repository: what the calls of a socket and of
-- the group of goroutines return, the resolver, the SQL statements and the JSON package, MD5 and random
-- bytes, the WebRTC stack, the WAV decoder and the G.711 encoder. Letters beyond ASCII have no case.
pub mod Base
pub mod Text
pub mod Dict
pub mod Sip
pub mod Tx
pub mod Server
pub mod B2bua
pub mod System
pub mod Transport
pub mod Guidance
pub mod Storage
pub mod Web
pub mod Tests
