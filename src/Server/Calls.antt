-- ===== src/Server/Calls.antt =====
-- The calls as the web interface sees them: `GetActiveSessions` and `DisconnectSession`.
--
-- `s.dialogs` leads to a B2BUA by its number; `calls` gives what its fields hold. The order of the
-- dictionary stands for the order of `Range`.
pub mod Listing
use xylitol.Base.{
  ℕ, ◌+◌, ◌-◌, ◌*◌, ◌/◌, ◌||◌, not, Bool, true, false, List, [], ◌∷◌, Option, none, some,
  if◌then◌else◌, Bytes, codes, equal, is_nil,
}
use xylitol.Dict.{Dict}
use xylitol.Sip.Message.{SipRequest, get_header}
use xylitol.Server.Clock.{second}

-- A B2BUA: the request of its server transaction, if any, the dialog of the caller's leg, and when
-- it started.
pub record CallView : Type 0 where
  pub original_request : Option SipRequest
  pub uas_dialog_id : Bytes
  pub start_time : ℕ

pub record SessionInfo : Type 0 where
  pub caller : Bytes
  pub callee : Bytes
  pub duration : ℕ
  pub call_id : Bytes

-- `time.Since(start).Round(time.Second)`: half a second is rounded up.
unfoldable pub rounded_since : ℕ → ℕ → ℕ
rounded_since start now = (now - start + second / 2) / second * second

unfoldable pub session_info : ℕ → SipRequest → CallView → SessionInfo
unfolding get_header rounded_since
session_info now req call = record {
  caller = get_header (codes "From") req;
  callee = get_header (codes "To") req;
  duration = rounded_since call.start_time now;
  call_id = get_header (codes "Call-ID") req;
}

-- One round of `Range`: a session is listed under the dialog of the caller's leg only.
unfoldable pub listed : ℕ → Bytes → CallView → Option SessionInfo
unfolding session_info equal
listed now key call = elim call.original_request [
  | none ↦ none
  | some req ↦
      if is_nil call.uas_dialog_id || not (equal key call.uas_dialog_id)
      then none
      else some (session_info now req call)
]

abbrev cons_if : Option SessionInfo → List SessionInfo → List SessionInfo
cons_if none sessions = sessions
cons_if (some info) sessions = info ∷ sessions

unfoldable pub get_active_sessions : ℕ → (ℕ → CallView) → Dict ℕ → List SessionInfo
unfolding listed
get_active_sessions now calls [] = []
get_active_sessions now calls ((key, b) ∷ dialogs) =
    cons_if (listed now key (calls b)) (get_active_sessions now calls dialogs)

abbrev pub has_call_id : Bytes → Option SipRequest → Bool
has_call_id call_id none = false
has_call_id call_id (some req) = equal (get_header (codes "Call-ID") req) call_id

-- The B2BUA to disconnect: the first one whose request has the Call-ID.
unfoldable pub find_call : Bytes → (ℕ → CallView) → Dict ℕ → Option ℕ
find_call call_id calls [] = none
find_call call_id calls ((key, b) ∷ dialogs) =
    let rest = find_call call_id calls dialogs in
    if has_call_id call_id (calls b).original_request then some b else rest
