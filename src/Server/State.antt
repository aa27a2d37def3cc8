-- ===== src/Server/State.antt =====
-- `SIPServer`, and the transaction manager of transaction.go.
use xylitol.Base.{[], Option, ℕ, Bool, Bytes}
use xylitol.Dict.{lookup, Dict, insert, delete}
use xylitol.Tx.InviteClient.{InviteClientTx}
use xylitol.Tx.InviteServer.{InviteServerTx}
use xylitol.Tx.NonInviteClient.{NonInviteClientTx}
use xylitol.Tx.NonInviteServer.{NonInviteServerTx}
use xylitol.Server.Registrar.{Registrar}
use xylitol.Server.Sessions.{Sessions}

-- `BaseTransaction`, by its four implementations.
pub data Transaction : Type 0 where
  invite_client : InviteClientTx → Transaction
  invite_server : InviteServerTx → Transaction
  non_invite_client : NonInviteClientTx → Transaction
  non_invite_server : NonInviteServerTx → Transaction

unfoldable pub id : Transaction → Bytes
id (invite_client tx) = tx.id
id (invite_server tx) = tx.id
id (non_invite_client tx) = tx.id
id (non_invite_server tx) = tx.id

unfoldable pub is_done : Transaction → Bool
is_done (invite_client tx) = tx.done
is_done (invite_server tx) = tx.done
is_done (non_invite_client tx) = tx.done
is_done (non_invite_server tx) = tx.done

-- `TransactionManager`: by branch.
abbrev pub Transactions : Type 0
Transactions = Dict Transaction

-- `NewTransactionManager`
abbrev pub new_transaction_manager : Transactions
new_transaction_manager = []

abbrev pub get : Bytes → Transactions → Option Transaction
get branch_id transactions = lookup branch_id transactions

unfoldable pub add : Transaction → Transactions → Transactions
unfolding id insert
add tx transactions = insert (id tx) tx transactions

unfoldable pub remove : Bytes → Transactions → Transactions
unfolding delete
remove branch_id transactions = delete branch_id transactions

-- A B2BUA is known here by a number. `listen_host` and `listen_port` are the two parts that
-- `net.SplitHostPort` finds in `listen_addr`; `listen_host` is all of it where the host is empty.
pub record SipServer : Type 0 where
  pub registrar : Registrar
  pub transactions : Transactions
  pub dialogs : Dict ℕ
  pub b2bua_by_tx : Dict ℕ
  pub sessions : Sessions
  pub guidance_settings : Dict Bytes
  pub listen_addr : Bytes
  pub listen_host : Bytes
  pub listen_port : Bytes

-- `UpdateGuidanceSettings`
unfoldable pub update_guidance_settings : Dict Bytes → SipServer → SipServer
update_guidance_settings settings s = record s { guidance_settings = settings }
