-- ===== src/Web/Users.antt =====
-- The pages of the users and of the sessions: `handleUsers`, `handleUsersNew`, `handleSessions` and
-- `handleSessionDisconnect`.
pub mod Accepted
use xylitol.Base.{
  ℕ, ◌||◌, Bool, true, false, not, List, [], ◌∷◌, Option, none, some, if◌then◌else◌, Bytes, codes,
  equal, is_nil, ◌++◌, Result, ok, err, panic,
}
use xylitol.Dict.{Dict}
use xylitol.Server.Registrar.{User}
use xylitol.Server.State.{SipServer}
use xylitol.Server.Calls.{CallView, get_active_sessions, find_call}
use xylitol.Storage.{Database, add_user, get_all_users}
use xylitol.Web.{
  HttpRequest, HttpResponse, http_error, redirect, Page, users_page, new_user_page, sessions_page,
  form_value, Templates, execute, Handled,
}

-- The hash `H(A1)` that is stored: of `username:realm:password`.
unfoldable pub ha1_hash : (Bytes → Bytes) → Bytes → Bytes → Bytes → Bytes
ha1_hash md5 username realm password = md5 (username ++ (b':' ∷ (realm ++ (b':' ∷ password))))

module _ (sql : Database) where
  open sql use {Db}

  users_answer : Templates → Result (List User) → HttpResponse
  unfolding execute
  users_answer templates (ok users) = execute templates (codes "users.html") (users_page users)
  users_answer templates _ = http_error 500

  unfoldable pub handle_users_list : Templates → Db → HttpResponse
  unfolding users_answer get_all_users
  handle_users_list templates db = users_answer templates (get_all_users sql db)

  unfoldable pub handle_users : Templates → HttpRequest → Db → HttpResponse
  unfolding handle_users_list equal
  handle_users templates r db =
      if equal r.method (codes "GET") then handle_users_list templates db else http_error 405

  unfoldable pub handle_users_new_form : Templates → HttpResponse
  unfolding execute
  handle_users_new_form templates = execute templates (codes "users_new.html") new_user_page

  -- The answer by the outcome of `AddUser`.
  unfoldable pub added_answer : Result User → HttpResponse
  added_answer (ok user) = redirect (codes "/users")
  added_answer _ = http_error 500

  -- The two fields are there: the user is added.
  unfoldable pub create_user : (Bytes → Bytes) → Bytes → Bytes → Bytes → Db → HttpResponse × Db
  unfolding ha1_hash add_user added_answer
  create_user md5 realm username password db =
      let (outcome, db') =
        add_user sql
          (record { id = 0; username = username; password = ha1_hash md5 username realm password })
          db in
      (added_answer outcome, db')

  unfoldable pub handle_users_new_submit :
      (Bytes → Bytes) → Bytes → HttpRequest → Db → HttpResponse × Db
  unfolding form_value create_user
  handle_users_new_submit md5 realm r db = elim r.form [
    | none ↦ (http_error 400, db)
    | some form ↦
        let username = form_value (codes "username") form in
        let password = form_value (codes "password") form in
        if is_nil username || is_nil password
        then (http_error 400, db)
        else create_user md5 realm username password db
  ]

  unfoldable pub handle_users_new :
      Templates → (Bytes → Bytes) → Bytes → HttpRequest → Db → HttpResponse × Db
  unfolding handle_users_new_form handle_users_new_submit equal
  handle_users_new templates md5 realm r db =
      if equal r.method (codes "GET")
      then (handle_users_new_form templates, db)
      else if equal r.method (codes "POST")
      then handle_users_new_submit md5 realm r db
      else (http_error 405, db)

unfoldable pub handle_sessions : Templates → ℕ → (ℕ → CallView) → SipServer → HttpResponse
unfolding execute get_active_sessions
handle_sessions templates now calls s =
    execute templates (codes "sessions.html")
      (sessions_page (get_active_sessions now calls s.dialogs))

-- The answer, and the B2BUA to disconnect. A call that is not found redirects as well.
unfoldable pub handle_session_disconnect :
    HttpRequest → (ℕ → CallView) → SipServer → HttpResponse × Option ℕ
unfolding equal form_value find_call
handle_session_disconnect r calls s =
    if not (equal r.method (codes "POST")) then (http_error 405, none) else elim r.form [
      | none ↦ (http_error 400, none)
      | some form ↦
          let call_id = form_value (codes "call_id") form in
          if is_nil call_id
          then (http_error 400, none)
          else (redirect (codes "/sessions"), find_call call_id calls s.dialogs)
    ]
