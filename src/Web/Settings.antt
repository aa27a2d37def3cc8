-- ===== src/Web/Settings.antt =====
-- The page of the guidance settings: `handleGuidanceSettings`, its form and its submission.
pub mod Saved
use xylitol.Base.{
  ℕ, ◌||◌, Bool, true, false, not, List, [], ◌∷◌, Option, none, some, if◌then◌else◌, Bytes, codes,
  equal, is_nil, ◌++◌, length, ◌==◌, Result, ok, err, panic,
}
use xylitol.Text.{trim_space}
use xylitol.Dict.{Dict, insert}
use xylitol.Server.State.{SipServer, update_guidance_settings}
use xylitol.Storage.{GuidanceSetting, Database, get_guidance_settings, set_guidance_settings}
use xylitol.Web.{
  HttpRequest, HttpResponse, http_error, Notice, plain, success, save_failed, guidance_page,
  form_values, Templates, execute,
}

-- One round of the loop over the rows of the form; `acc` is `newSettings` and `sipServerSettings`.
unfoldable pub add_row :
    Bytes → Bytes → List GuidanceSetting × Dict Bytes → List GuidanceSetting × Dict Bytes
unfolding insert
add_row uri audio acc =
    if is_nil uri || is_nil audio
    then acc
    else (acc.0 ++ (record { uri = uri; audio_file = audio } ∷ []), insert uri audio acc.1)

unfoldable pub add_rows :
    List Bytes → List Bytes → List GuidanceSetting × Dict Bytes → List GuidanceSetting × Dict Bytes
unfolding add_row trim_space
add_rows (uri ∷ uris) (audio ∷ audios) acc =
    add_rows uris audios (add_row (trim_space uri) (trim_space audio) acc)
add_rows _ _ acc = acc

module _ (sql : Database) (templates : Templates) where
  open sql use {Db}

  -- `data["Settings"]` is always the stored list.
  unfoldable pub form_answer : Notice → Result (List GuidanceSetting) → HttpResponse
  unfolding execute
  form_answer notice (ok settings) =
      execute templates (codes "guidance.html") (guidance_page notice settings)
  form_answer notice _ = http_error 500

  unfoldable pub settings_form : Notice → Db → HttpResponse
  unfolding form_answer get_guidance_settings
  settings_form notice db = form_answer notice (get_guidance_settings sql db)

  -- The answer by the outcome of `SetGuidanceSettings`.
  unfoldable pub saved :
      Dict Bytes → Result (Unit {0}) × Db → SipServer → HttpResponse × (Db × SipServer)
  unfolding settings_form update_guidance_settings
  saved routes (ok _, db) s = (settings_form success db, (db, update_guidance_settings routes s))
  saved routes (_, db) s = (settings_form save_failed db, (db, s))

  -- The loop is over: store the list, then hand the map to the running SIP server.
  unfoldable pub save_settings :
      List GuidanceSetting × Dict Bytes → Db → SipServer → HttpResponse × (Db × SipServer)
  unfolding set_guidance_settings saved
  save_settings acc db s = saved acc.1 (set_guidance_settings sql acc.0 db) s

  -- The two lists of the form.
  unfoldable pub submit_rows :
      List Bytes → List Bytes → Db → SipServer → HttpResponse × (Db × SipServer)
  unfolding add_rows save_settings
  submit_rows uris audios db s =
      if length uris == length audios
      then save_settings (add_rows uris audios ([], [])) db s
      else (http_error 400, (db, s))

  unfoldable pub submit_settings : HttpRequest → Db → SipServer → HttpResponse × (Db × SipServer)
  unfolding form_values submit_rows
  submit_settings r db s = elim r.form [
    | none ↦ (http_error 400, (db, s))
    | some form ↦
        submit_rows (form_values (codes "guidance_uri") form)
          (form_values (codes "guidance_audio") form) db s
  ]

  unfoldable pub handle_guidance_settings :
      HttpRequest → Db → SipServer → HttpResponse × (Db × SipServer)
  unfolding settings_form submit_settings equal
  handle_guidance_settings r db s =
      if equal r.method (codes "GET")
      then (settings_form plain db, (db, s))
      else if equal r.method (codes "POST")
      then submit_settings r db s
      else (http_error 405, (db, s))
