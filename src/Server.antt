-- ===== src/Server.antt =====
-- The SIP server (server.go, digest.go): registrar, sessions, routing and dispatch.
pub mod Clock
pub mod Nonces
pub mod Contacts
pub mod Calls
pub mod Connection
pub mod Registrar
pub mod Sessions
pub mod Stream
pub mod State
pub mod Dispatch
pub mod Invite
pub mod Serve
pub mod Listen
