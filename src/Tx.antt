-- ===== src/Tx.antt =====
-- The four transaction state machines (transaction.go and transaction_*.go).
pub mod Common
pub mod InviteClient
pub mod NonInviteClient
pub mod InviteServer
pub mod NonInviteServer
