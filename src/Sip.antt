-- ===== src/Sip.antt =====
-- SIP messages: parser.go, response.go and the message helpers of server.go.
pub mod Message
pub mod Uri
pub mod Via
pub mod Fields
pub mod Build
pub mod Request
pub mod Response
