-- ===== src/Web/Startup.antt =====
-- The start of the program (cmd/server/main.go): the guidance settings that it loads or creates,
-- and
-- the SIP server that it builds with them.
pub mod Restart
pub mod Main
use xylitol.Base.{
  Bool, List, [], ◌∷◌, if◌then◌else◌, Bytes, codes, is_nil, Result, ok, err, panic, ◌>>=◌,
}
use xylitol.Dict.{Dict, insert}
use xylitol.Server.State.{SipServer}
use xylitol.Server.Serve.{new_sip_server}
use xylitol.Storage.{GuidanceSetting, Database, get_guidance_settings, set_guidance_settings}

abbrev pub default_settings : List GuidanceSetting
default_settings =
    record { uri = codes "announcement"; audio_file = codes "audio/announcement.wav" } ∷ []

-- `guidanceMap`: a later setting of the same URI wins.
unfoldable pub add_settings : List GuidanceSetting → Dict Bytes → Dict Bytes
unfolding insert
add_settings [] m = m
add_settings (setting ∷ settings) m =
    add_settings settings (insert setting.uri setting.audio_file m)

unfoldable pub guidance_map : List GuidanceSetting → Dict Bytes
unfolding add_settings
guidance_map settings = add_settings settings []

module _ (sql : Database) where
  open sql use {Db}

  store_defaults : Result (Unit {0}) × Db → Result (List GuidanceSetting) × Db
  store_defaults (outcome, db) = (outcome >>= (λ _. ok default_settings), db)

  -- `len(guidanceSettings) == 0`
  or_defaults : List GuidanceSetting → Db → Result (List GuidanceSetting) × Db
  unfolding store_defaults set_guidance_settings
  or_defaults [] db = store_defaults (set_guidance_settings sql default_settings db)
  or_defaults (setting ∷ settings) db = (ok (setting ∷ settings), db)

  loaded : Result (List GuidanceSetting) → Db → Result (List GuidanceSetting) × Db
  unfolding or_defaults
  loaded (ok settings) db = or_defaults settings db
  loaded (err reason) db = (err reason, db)
  loaded panic db = (panic, db)

  -- The settings that the program starts with. An error is fatal.
  unfoldable pub load_settings : Db → Result (List GuidanceSetting) × Db
  unfolding get_guidance_settings loaded
  load_settings db = loaded (get_guidance_settings sql db) db

  unfoldable pub start_sip_server : Bytes → Db → Result SipServer × Db
  unfolding load_settings guidance_map new_sip_server
  start_sip_server realm db =
      let (settings, db') = load_settings db in
      (settings >>= (λ list. ok (new_sip_server realm (guidance_map list))), db')
