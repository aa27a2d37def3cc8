-- ===== src/Web/Routes.antt =====
-- `registerRoutes`: the handler of each path.
use xylitol.Base.{ℕ, none, Bytes}
use xylitol.Server.State.{SipServer}
use xylitol.Server.Calls.{CallView}
use xylitol.Storage.{Database}
use xylitol.Web.{
  HttpRequest, Templates, Handled, Route, root, users, users_new, sessions, sessions_disconnect,
  settings_guidance, route_of, handle_root,
}
use xylitol.Web.Users.{handle_users, handle_users_new, handle_sessions, handle_session_disconnect}
use xylitol.Web.Settings.{handle_guidance_settings}

module _ (sql : Database) (templates : Templates) (md5 : Bytes → Bytes) (realm : Bytes) where
  open sql use {Db}

  unfoldable pub handle : Route → ℕ → (ℕ → CallView) → HttpRequest → Db → SipServer → Handled Db
  unfolding handle_root handle_users handle_users_new handle_sessions handle_session_disconnect
      handle_guidance_settings
  handle root now calls r db s = record {
    answer = handle_root;
    db = db;
    sip = s;
    disconnected = none;
  }
  handle users now calls r db s = record {
    answer = handle_users sql templates r db;
    db = db;
    sip = s;
    disconnected = none;
  }
  handle users_new now calls r db s =
      let (answer, db') = handle_users_new sql templates md5 realm r db in
      record { answer = answer; db = db'; sip = s; disconnected = none }
  handle sessions now calls r db s = record {
    answer = handle_sessions templates now calls s;
    db = db;
    sip = s;
    disconnected = none;
  }
  handle sessions_disconnect now calls r db s =
      let (answer, call) = handle_session_disconnect r calls s in
      record { answer = answer; db = db; sip = s; disconnected = call }
  handle settings_guidance now calls r db s =
      let (answer, (db', s')) = handle_guidance_settings sql templates r db s in
      record { answer = answer; db = db'; sip = s'; disconnected = none }

  unfoldable pub serve : ℕ → (ℕ → CallView) → HttpRequest → Db → SipServer → Handled Db
  unfolding handle route_of
  serve now calls r db s = handle (route_of r.path) now calls r db s
