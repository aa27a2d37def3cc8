-- ===== src/Web/Startup/Restart.antt =====
-- A restart behind a submission of the guidance settings.
use xylitol.Base.{List, [], ◌∷◌, some, Bytes, ok, ◌≡◌, refl, ◌∙◌}
use xylitol.Server.State.{SipServer}
use xylitol.Server.Serve.{new_sip_server}
use xylitol.Storage.{GuidanceSetting, Database, get_guidance_settings, set_guidance_settings}
use xylitol.Dict.{Dict}
use xylitol.Storage.Laws.{AreUtf8}
use xylitol.Web.{HttpRequest, Templates, page, success, guidance_page}
use xylitol.Web.Settings.{submit_settings}
use xylitol.Web.Settings.Saved.{submitted, submit_settings-page, guidance-IsSaved}
use xylitol.Web.Startup.{default_settings, guidance_map, load_settings, start_sip_server}

guidance_map_none : guidance_map [] ≡ []
unfolding guidance_map
guidance_map_none = refl

module _ (sql : Database) (templates : Templates) where
  open sql use {Db}

  loaded-stored :
      (setting : GuidanceSetting) (settings : List GuidanceSetting) (db : Db)
      → get_guidance_settings sql db ≡ ok (setting ∷ settings)
      → load_settings sql db ≡ (ok (setting ∷ settings), db)
  unfolding load_settings
  loaded-stored setting settings db h = rw (load_settings, h) refl

  loaded-default :
      (db db' : Db)
      → get_guidance_settings sql db ≡ ok []
      → set_guidance_settings sql default_settings db ≡ (ok tt, db')
      → load_settings sql db ≡ (ok default_settings, db')
  unfolding load_settings
  loaded-default db db' h stored = rw (load_settings, h, stored) refl

  -- Where the page of a successful submission of a form in valid UTF-8 shows at least one setting, the program starts on the
  -- tables behind it with a new SIP server that has the guidance map of the running one, and leaves
  -- the tables as they are.
  pub restart_keeps_guidance :
      (realm : Bytes) (r : HttpRequest) (form : Dict (List Bytes)) (setting : GuidanceSetting)
      (settings : List GuidanceSetting) (db db' : Db) (s s' : SipServer)
      → r.form ≡ some form
      → AreUtf8 sql (submitted form).0
      → submit_settings sql templates r db s
        ≡ (page (guidance_page success (setting ∷ settings)), (db', s'))
      → start_sip_server sql realm db' ≡ (ok (new_sip_server realm s'.guidance_settings), db')
  unfolding start_sip_server
  restart_keeps_guidance realm r form setting settings db db' s s' f utf8 h =
      let saved = submit_settings-page sql templates r form _ db db' s s' f utf8 h in
      let (map, read) = guidance-IsSaved sql templates db' s s' _ (submitted form) saved in
      rw (start_sip_server, loaded-stored setting settings db' read, map) refl

  -- Where the page of a successful submission shows no setting, the running server has an empty
  -- guidance map; the server that is started on the tables behind it, where the defaults can be
  -- stored, has the map of the defaults.
  restart_restores_defaults :
      (realm : Bytes) (r : HttpRequest) (form : Dict (List Bytes)) (db db' db'' : Db)
      (s s' : SipServer)
      → r.form ≡ some form
      → AreUtf8 sql (submitted form).0
      → submit_settings sql templates r db s ≡ (page (guidance_page success []), (db', s'))
      → set_guidance_settings sql default_settings db' ≡ (ok tt, db'')
      → (s'.guidance_settings ≡ [])
        × (start_sip_server sql realm db'
            ≡ (ok (new_sip_server realm (guidance_map default_settings)), db''))
  unfolding start_sip_server
  restart_restores_defaults realm r form db db' db'' s s' f utf8 h stored =
      let saved = submit_settings-page sql templates r form _ db db' s s' f utf8 h in
      let (map, read) = guidance-IsSaved sql templates db' s s' _ (submitted form) saved in
      (map ∙ guidance_map_none, rw (start_sip_server, loaded-default db' db'' read stored) refl)
