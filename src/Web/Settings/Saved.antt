-- ===== src/Web/Settings/Saved.antt =====
-- What the page says about the tables and the running SIP server.
use xylitol.Base.{
  ◌||◌, is_nil, [], some, ◌∷◌, ◌++◌, List, Bytes, codes, ◌==◌, length, Result, ok, err, panic, ◌≡◌,
  refl, sym, ap, ◌∙◌, arith, inl, inr, Bool-cases,
}
use xylitol.Dict.{Dict, insert}
use xylitol.Server.State.{SipServer, update_guidance_settings}
use xylitol.Storage.{GuidanceSetting, Database, get_guidance_settings}
use xylitol.Storage.Laws.{AreUtf8, get-set_guidance_settings}
use xylitol.Web.{
  HttpRequest, Page, Notice, page, success, save_failed, guidance_page, Templates, execute,
  form_values,
}
use xylitol.Web.Startup.{add_settings, guidance_map}
use xylitol.Web.Settings.{
  add_row, add_rows, form_answer, settings_form, saved, save_settings, submit_rows, submit_settings,
}

-- The map that the program would build from the list of the form is the one that the form builds.
add_settings-append :
    (settings : List GuidanceSetting) (setting : GuidanceSetting) (m : Dict Bytes)
    → add_settings (settings ++ (setting ∷ [])) m
      ≡ insert setting.uri setting.audio_file (add_settings settings m)
unfolding add_settings
add_settings-append [] setting m = refl
add_settings-append (first ∷ settings) setting m =
    add_settings-append settings setting (insert first.uri first.audio_file m)

add_row-guidance_map :
    (uri audio : Bytes) (acc : List GuidanceSetting × Dict Bytes)
    → acc.1 ≡ guidance_map acc.0
    → (add_row uri audio acc).1 ≡ guidance_map (add_row uri audio acc).0
unfolding add_row guidance_map
add_row-guidance_map uri audio acc h = elim (Bool-cases (is_nil uri || is_nil audio)) [
  | inl e ↦ rw (e) h
  | inr e ↦
      rw (e, h) (sym (add_settings-append acc.0 (record { uri = uri; audio_file = audio }) []))
]

add_rows-guidance_map :
    (uris audios : List Bytes) (acc : List GuidanceSetting × Dict Bytes)
    → acc.1 ≡ guidance_map acc.0
    → (add_rows uris audios acc).1 ≡ guidance_map (add_rows uris audios acc).0
unfolding add_rows
add_rows-guidance_map (uri ∷ uris) (audio ∷ audios) acc h =
    add_rows-guidance_map uris audios _ (add_row-guidance_map _ _ acc h)
add_rows-guidance_map [] audios acc h = h
add_rows-guidance_map (uri ∷ uris) [] acc h = h

-- The settings that the rows of the form make.
abbrev pub submitted : Dict (List Bytes) → List GuidanceSetting × Dict Bytes
submitted form =
    add_rows (form_values (codes "guidance_uri") form) (form_values (codes "guidance_audio") form)
      ([], [])

module _ (sql : Database) (templates : Templates) where
  open sql use {Db}

  execute-page :
      (name : Bytes) (given shown : Page)
      → execute templates name given ≡ page shown
      → given ≡ shown
  unfolding execute
  execute-page name given shown h = ground arith

  form_answer-page :
      (notice given : Notice) (shown : List GuidanceSetting)
      (stored : Result (List GuidanceSetting))
      → form_answer sql templates given stored ≡ page (guidance_page notice shown)
      → (given ≡ notice) × (stored ≡ ok shown)
  unfolding form_answer
  form_answer-page notice given shown (ok settings) h = let same = execute-page _ _ _ h in (cc, cc)
  form_answer-page notice given shown (err reason) h = cc
  form_answer-page notice given shown panic h = cc

  -- The page of a success tells that the settings were stored and given to the SIP server.
  saved-page :
      (routes : Dict Bytes) (shown : List GuidanceSetting) (r : Result (Unit {0}) × Db)
      (s s' : SipServer) (db' : Db)
      → saved sql templates routes r s ≡ (page (guidance_page success shown), (db', s'))
      → (r ≡ (ok tt, db'))
        × (s' ≡ update_guidance_settings routes s)
        × (get_guidance_settings sql db' ≡ ok shown)
  unfolding saved settings_form
  saved-page routes shown (ok tt, db) s s' db' h =
      let (_, there) = form_answer-page success success shown _ (ap (λ x. x.0) h) in (cc, cc, cc)
  saved-page routes shown (err reason, db) s s' db' h =
      let (other, _) = form_answer-page success save_failed shown _ (ap (λ x. x.0) h) in cc
  saved-page routes shown (panic, db) s s' db' h =
      let (other, _) = form_answer-page success save_failed shown _ (ap (λ x. x.0) h) in cc

  -- What a successful submission has done: `acc` is what the loop over the rows made.
  pub record IsSaved (db' : Db) (s s' : SipServer) (shown : List GuidanceSetting)
      (acc : List GuidanceSetting × Dict Bytes) : Type 0 where
    pub agrees : acc.1 ≡ guidance_map acc.0
    pub reads : get_guidance_settings sql db' ≡ ok acc.0
    pub shows : shown ≡ acc.0
    pub running : s' ≡ update_guidance_settings acc.1 s

  save_settings-page :
      (acc : List GuidanceSetting × Dict Bytes) (shown : List GuidanceSetting) (db db' : Db)
      (s s' : SipServer)
      → acc.1 ≡ guidance_map acc.0
      → AreUtf8 sql acc.0
      → save_settings sql templates acc db s ≡ (page (guidance_page success shown), (db', s'))
      → IsSaved db' s s' shown acc
  unfolding save_settings
  save_settings-page acc shown db db' s s' agrees utf8 h =
      let (stored, running, there) = saved-page acc.1 shown _ s s' db' h in
      let reads = get-set_guidance_settings sql acc.0 db db' utf8 stored in
      record { agrees = agrees; reads = reads; shows = cc; running = running }

  submit_rows-page :
      (uris audios : List Bytes) (shown : List GuidanceSetting) (db db' : Db) (s s' : SipServer)
      → AreUtf8 sql (add_rows uris audios ([], [])).0
      → submit_rows sql templates uris audios db s ≡ (page (guidance_page success shown), (db', s'))
      → IsSaved db' s s' shown (add_rows uris audios ([], []))
  unfolding submit_rows guidance_map
  submit_rows-page uris audios shown db db' s s' utf8 h =
      elim (Bool-cases (length uris == length audios)) [
        | inl e ↦
            save_settings-page (add_rows uris audios ([], [])) shown db db' s s'
              (add_rows-guidance_map uris audios ([], []) refl) utf8 (ground arith)
        | inr e ↦ ground arith
      ]

  pub submit_settings-page :
      (r : HttpRequest) (form : Dict (List Bytes)) (shown : List GuidanceSetting) (db db' : Db)
      (s s' : SipServer)
      → r.form ≡ some form
      → AreUtf8 sql (submitted form).0
      → submit_settings sql templates r db s ≡ (page (guidance_page success shown), (db', s'))
      → IsSaved db' s s' shown (submitted form)
  unfolding submit_settings
  submit_settings-page r form shown db db' s s' f utf8 h =
      submit_rows-page (form_values (codes "guidance_uri") form)
        (form_values (codes "guidance_audio") form) shown db db' s s' utf8 (ground arith)

  pub guidance-IsSaved :
      (db' : Db) (s s' : SipServer) (shown : List GuidanceSetting)
      (acc : List GuidanceSetting × Dict Bytes)
      → IsSaved db' s s' shown acc
      → (s'.guidance_settings ≡ guidance_map shown) × (get_guidance_settings sql db' ≡ ok shown)
  unfolding update_guidance_settings
  guidance-IsSaved db' s s' shown acc saved = (
    ap (λ x. x.guidance_settings) saved.running
        ∙ (saved.agrees ∙ ap guidance_map (sym saved.shows)),
    saved.reads ∙ ap ok (sym saved.shows),
  )
