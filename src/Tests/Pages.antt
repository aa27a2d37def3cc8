-- ===== src/Tests/Pages.antt =====
-- The web interface on tables in memory: a form of the guidance settings, and a new user who
-- registers.
use xylitol.Base.{
  [], ◌∷◌, some, true, if◌then◌else◌, Bytes, codes, equal, ok, ◌&&◌, ◌≡◌, refl, List,
}
use xylitol.Dict.{Dict}
use xylitol.Sip.Message.{SipRequest}
use xylitol.Server.State.{SipServer}
use xylitol.Server.Nonces.{validate_nonce}
use xylitol.Server.Registrar.{
  Draw, Registrar, Credentials, credentials, handle_register, accept, unauthorized,
}
use xylitol.Server.Serve.{new_sip_server}
use xylitol.Storage.{GuidanceSetting, find_user, set_guidance_settings}
use xylitol.Web.{
  HttpRequest, redirect, page, success, guidance_page, Templates, form_value, form_values,
}
use xylitol.Web.Settings.{add_rows, submit_settings}
use xylitol.Web.Users.{handle_users_new_submit}
use xylitol.Web.Users.Accepted.{request_digest, created_user_registers}
use xylitol.Web.Startup.{default_settings, start_sip_server}
use xylitol.Web.Startup.Restart.{restart_keeps_guidance}
use xylitol.Tests.Tables.{Tables, tables}

abbrev templates : Templates
templates = record { names = codes "guidance.html" ∷ []; renders = λ page. true }

abbrev no_tables : Tables
no_tables = record { users = []; settings = [] }

abbrev realm : Bytes
realm = codes "go-sip-server"

abbrev sip_server : SipServer
sip_server = new_sip_server realm []

abbrev news_form : Dict (List Bytes)
news_form =
    (codes "guidance_uri", codes " news " ∷ [] ∷ [])
    ∷ (codes "guidance_audio", codes "n.wav" ∷ codes "x" ∷ [])
    ∷ []

-- A row with spaces, and an empty row.
abbrev news : HttpRequest
news = record { method = codes "POST"; path = codes "/settings/guidance"; form = some news_form }

abbrev nothing : HttpRequest
nothing = record { method = codes "POST"; path = codes "/settings/guidance"; form = some [] }

abbrev news_setting : GuidanceSetting
news_setting = record { uri = codes "news"; audio_file = codes "n.wav" }

abbrev news_tables : Tables
news_tables = (submit_settings tables templates news no_tables sip_server).1.0

abbrev news_server : SipServer
news_server = (submit_settings tables templates news no_tables sip_server).1.1

news_submitted :
    submit_settings tables templates news no_tables sip_server
    ≡ (page (guidance_page success (news_setting ∷ [])), (news_tables, news_server))
unfolding submit_settings
news_submitted = refl

restart_keeps_guidance_example :
    start_sip_server tables realm news_tables
    ≡ (ok (new_sip_server realm news_server.guidance_settings), news_tables)
unfolding add_rows form_values equal
restart_keeps_guidance_example =
    restart_keeps_guidance tables templates realm news news_form news_setting [] no_tables
      news_tables sip_server news_server refl ((refl, refl), tt) news_submitted

abbrev empty_tables : Tables
empty_tables = (submit_settings tables templates nothing no_tables sip_server).1.0

abbrev empty_server : SipServer
empty_server = (submit_settings tables templates nothing no_tables sip_server).1.1

nothing_submitted :
    submit_settings tables templates nothing no_tables sip_server
    ≡ (page (guidance_page success []), (empty_tables, empty_server))
unfolding submit_settings
nothing_submitted = refl

abbrev default_tables : Tables
default_tables = (set_guidance_settings tables default_settings empty_tables).1

defaults_stored :
    set_guidance_settings tables default_settings empty_tables ≡ (ok tt, default_tables)
unfolding set_guidance_settings
defaults_stored = refl

-- The sum does nothing here.
abbrev md5 : Bytes → Bytes
md5 text = text

abbrev form : Dict (List Bytes)
form = (codes "username", codes "alice" ∷ []) ∷ (codes "password", codes "secret" ∷ []) ∷ []

abbrev new_user : HttpRequest
new_user = record { method = codes "POST"; path = codes "/users/new"; form = some form }

abbrev user_tables : Tables
user_tables = (handle_users_new_submit tables md5 realm new_user no_tables).1

user_created :
    handle_users_new_submit tables md5 realm new_user no_tables
    ≡ (redirect (codes "/users"), user_tables)
unfolding handle_users_new_submit equal
user_created = refl

abbrev alice : Credentials
alice = record {
  username = codes "alice";
  nonce = codes "n1";
  uri = codes "sip:h";
  response = codes "alice:go-sip-server:secret:n1:REGISTER:sip:h";
}

abbrev register : SipRequest
register = record {
  method = codes "REGISTER";
  uri = codes "sip:h";
  proto = codes "SIP/2.0";
  headers = (codes "Contact", codes "<sip:alice@x>") ∷ [];
  authorization =
      (codes "username", alice.username)
      ∷ (codes "nonce", alice.nonce)
      ∷ (codes "uri", alice.uri)
      ∷ (codes "response", alice.response)
      ∷ [];
  body = [];
}

abbrev registrar : Registrar
registrar = record { realm = realm; registrations = []; nonces = (codes "n1", 1000) ∷ [] }

abbrev draw : Draw
draw = record { now = 500; date = codes "today"; nonce = codes "n" }

alice_given : credentials register.authorization ≡ some alice
unfolding credentials equal
alice_given = refl

alice_named : alice.username ≡ form_value (codes "username") form
unfolding form_value equal
alice_named = refl

created_user_registers_example :
    handle_register
      (record { md5hash = md5; get_user_by_username = find_user tables user_tables })
      draw
      register
      registrar
    ≡ (let (fresh, nonces) = validate_nonce 500 (codes "n1") registrar.nonces in
        let registrar' = record registrar { nonces = nonces } in
        let password = form_value (codes "password") form in
        if fresh
          && equal alice.response (
              request_digest md5 alice.username realm password alice.nonce register.method
                alice.uri)
        then accept draw register registrar'
        else ok (unauthorized draw register registrar'))
created_user_registers_example =
    created_user_registers tables md5 realm new_user form no_tables user_tables refl user_created
      refl draw register registrar alice alice_given alice_named

-- The digest of the example is the one that is expected.
alice_accepted :
    equal alice.response (
      request_digest md5 alice.username realm
        (codes "secret")
        alice.nonce
        register.method
        alice.uri)
    ≡ true
unfolding equal request_digest
alice_accepted = refl
