-- ===== src/Tests.antt =====
-- Examples: the code on concrete messages, and each theorem at a concrete input.
mod Data
mod Messages
mod Clients
mod Servers
mod Registering
mod Calls
mod Running
mod Texts
mod Tables
mod Pages
mod Streams
mod Responses
mod Uris
mod Ends
