-- ===== src/B2bua.antt =====
-- The back-to-back user agent (b2bua.go): the requests and responses that it makes, what it does
-- with the callee's responses, and the life of a call.
pub mod Requests
pub mod Setup
pub mod Mediate
pub mod Life
pub mod Ending
