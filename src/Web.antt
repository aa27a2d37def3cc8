-- ===== src/Web.antt =====
-- The web interface (internal/web/server.go), and what cmd/server/main.go loads at the start.
pub mod Settings
pub mod Users
pub mod Routes
pub mod Running
pub mod Startup
use xylitol.Base.{
  ℕ, Bool, true, false, not, List, [], ◌∷◌, Option, none, some, if◌then◌else◌, Bytes, codes, equal,
  Result, ok, err, panic, ◌>>=◌, ◌≡◌, bad_pattern, bad_template,
}
use xylitol.Dict.{Dict, lookup, insert}
use xylitol.Server.Registrar.{User}
use xylitol.Server.State.{SipServer}
use xylitol.Server.Calls.{SessionInfo}
use xylitol.Storage.{GuidanceSetting}

-- `r.Method`, and the form by its keys, or `none` where `ParseForm` fails.
pub record HttpRequest : Type 0 where
  pub method : Bytes
  pub path : Bytes
  pub form : Option (Dict (List Bytes))

-- What the handler of the form adds to its data: nothing, `Success` or `Error`.
pub data Notice : Type 0 where
  plain success save_failed : Notice

-- The data of a template.
pub data Page : Type 0 where
  users_page : List User → Page
  new_user_page : Page
  sessions_page : List SessionInfo → Page
  guidance_page : Notice → List GuidanceSetting → Page

-- `http.Error` with a status, `http.Redirect`, or what `Execute` wrote. Where `Execute` fails, a
-- part
-- of the page may stand before the error; where the template is missing, the handler panics.
pub data HttpResponse : Type 0 where
  http_error : ℕ → HttpResponse
  redirect : Bytes → HttpResponse
  page : Page → HttpResponse
  broken_page : Page → HttpResponse
  handler_panics : HttpResponse

-- `FormValue`: the first value of the key.
first_value : Option (List Bytes) → Bytes
first_value (some (value ∷ values)) = value
first_value _ = []

unfoldable pub form_value : Bytes → Dict (List Bytes) → Bytes
unfolding lookup first_value
form_value key form = first_value (lookup key form)

-- `r.Form[key]`: all values of the key.
values_of : Option (List Bytes) → List Bytes
values_of none = []
values_of (some values) = values

unfoldable pub form_values : Bytes → Dict (List Bytes) → List Bytes
unfolding lookup values_of
form_values key form = values_of (lookup key form)

-- The names of the parsed templates, and whether one can be executed on its data.
pub record Templates : Type 0 where
  pub names : List Bytes
  pub renders : Page → Bool

has_name : Bytes → List Bytes → Bool
unfolding equal
has_name name [] = false
has_name name (other ∷ names) =
    let rest = has_name name names in if equal other name then true else rest

-- The loop of `parseTemplates` over the base names of the files.
unfoldable pub parse_files : List (Bytes × Bool) → Result (List Bytes)
parse_files [] = ok []
parse_files ((name, parses) ∷ files) =
    let rest = parse_files files in
    if parses then (rest >>= (λ names. ok (name ∷ names))) else err bad_template

-- `parseTemplates`: the files that `Glob` finds, or `none` where it fails.
unfoldable pub parse_templates : Option (List (Bytes × Bool)) → Result (List Bytes)
unfolding parse_files
parse_templates none = err bad_pattern
parse_templates (some files) = parse_files files

unfoldable pub execute : Templates → Bytes → Page → HttpResponse
unfolding has_name
execute templates name data_ =
    if not (has_name name templates.names)
    then handler_panics
    else if templates.renders data_
    then page data_
    else broken_page data_

-- What a request leaves: the answer, the tables, the SIP server, and the B2BUA to disconnect.
pub record Handled (Db : Type 0) : Type 0 where
  pub answer : HttpResponse
  pub db : Db
  pub sip : SipServer
  pub disconnected : Option ℕ

-- The handlers that `registerRoutes` installs.
pub data Route : Type 0 where
  root users users_new sessions sessions_disconnect settings_guidance : Route

-- `registerRoutes`; the pattern `/` matches every other path.
unfoldable pub route_of : Bytes → Route
unfolding equal
route_of path =
    if equal path (codes "/users")
    then users
    else if equal path (codes "/users/new")
    then users_new
    else if equal path (codes "/sessions")
    then sessions
    else if equal path (codes "/sessions/disconnect")
    then sessions_disconnect
    else if equal path (codes "/settings/guidance")
    then settings_guidance
    else root

-- `handleRoot`
unfoldable pub handle_root : HttpResponse
handle_root = redirect (codes "/users")
