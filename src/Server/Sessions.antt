-- ===== src/Server/Sessions.antt =====
-- Session timers: `createOrUpdateSession` and `expireSession`.
use xylitol.Base.{ℕ, ◌||◌, ◌∷◌, ◌++◌, Option, none, some, if◌then◌else◌, Bytes, codes, is_nil, ℤ}
use xylitol.Dict.{Dict, insert, delete}
use xylitol.Sip.Message.{SipResponse, get_response_header}
use xylitol.Sip.Fields.{SessionExpires, get_tag}
use xylitol.Server.Clock.{add, seconds}

-- The timer of a session runs while the session is in the map, and ends at `expires_at`.
pub record SessionState : Type 0 where
  pub dialog_id : Bytes
  pub interval : ℤ
  pub expires_at : ℕ
  pub refresher : Bytes

abbrev pub Sessions : Type 0
Sessions = Dict SessionState

unfoldable pub get_dialog_id : Bytes → Bytes → Bytes → Bytes
get_dialog_id call_id from_tag to_tag = call_id ++ (b':' ∷ (from_tag ++ (b':' ∷ to_tag)))

-- The session that takes the place of one of the same dialog, whose timer is stopped.
unfoldable pub create_or_update_session :
    ℕ → SipResponse → Option SessionExpires → Sessions → Sessions
unfolding get_response_header get_tag get_dialog_id insert add seconds
create_or_update_session now res none sessions = sessions
create_or_update_session now res (some se) sessions =
    let call_id = get_response_header (codes "Call-ID") res in
    let from_tag = get_tag (get_response_header (codes "From") res) in
    let to_tag = get_tag (get_response_header (codes "To") res) in
    if is_nil se.refresher || is_nil call_id || is_nil from_tag || is_nil to_tag
    then sessions
    else insert (get_dialog_id call_id from_tag to_tag)
        (record {
          dialog_id = get_dialog_id call_id from_tag to_tag;
          interval = se.delta;
          expires_at = add now (seconds se.delta);
          refresher = se.refresher;
        })
        sessions

-- The callback of a session's timer.
unfoldable pub expire_session : Bytes → Sessions → Sessions
unfolding delete
expire_session dialog_id sessions = delete dialog_id sessions
