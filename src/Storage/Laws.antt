-- ===== src/Storage/Laws.antt =====
-- What was stored is found.
use xylitol.Base.{All, true, List, Bytes, ok, ◌≡◌, refl, arith, inl, inr, Bool-cases, Option-cases}
use xylitol.Server.Registrar.{User, found}
use xylitol.Storage.{
  GuidanceSetting, Database, select_from_users, guidance_key, add_user, get_user_by_username,
  set_setting, get_guidance_settings, set_guidance_settings, find_user,
}

module _ (sql : Database) where
  open sql use {
    Db, prepares, insert_user, last_insert_id, select_user, select_setting, replace_setting,
    marshal, unmarshal, is_utf8, select-insert, select-replace, unmarshal-marshal,
  }

  -- A user that `add_user` has added was inserted.
  add_user-ok :
      (user added : User) (db db' : Db)
      → add_user sql user db ≡ (ok added, db')
      → insert_user user.username user.password db ≡ (true, db')
  unfolding add_user
  add_user-ok user added db db' h =
      elim (Bool-cases (insert_user user.username user.password db).0) [
        | inl e ↦ ground arith
        | inr e ↦ ground arith
      ]

  set_setting-ok :
      (key value : Bytes) (db db' : Db)
      → set_setting sql key value db ≡ (ok tt, db')
      → replace_setting key value db ≡ (true, db')
  unfolding set_setting
  set_setting-ok key value db db' h = ground arith

  -- A user that was added is found under the same name with the same password hash, where the
  -- look-up can be prepared.
  pub find_user-add_user :
      (user added : User) (db db' : Db)
      → add_user sql user db ≡ (ok added, db')
      → prepares select_from_users db' ≡ true
      → (kept : User) × (find_user sql db' user.username ≡ found kept)
        × (kept.username ≡ user.username)
        × (kept.password ≡ user.password)
  unfolding find_user
  find_user-add_user user added db db' h p =
      let (n, there) =
        select-insert user.username user.password db db' (add_user-ok user added db db' h) in
      (
        record { id = n; username = user.username; password = user.password },
        rw (find_user, get_user_by_username, p, there) refl,
        refl,
        refl,
      )

  -- Both texts of each setting are valid UTF-8.
  abbrev pub AreUtf8 : List GuidanceSetting → Type 0
  AreUtf8 settings = All (λ x. (is_utf8 x.uri ≡ true) × (is_utf8 x.audio_file ≡ true)) settings

  -- Guidance settings in valid UTF-8 that were stored are read back.
  pub get-set_guidance_settings :
      (settings : List GuidanceSetting) (db db' : Db)
      → AreUtf8 settings
      → set_guidance_settings sql settings db ≡ (ok tt, db')
      → get_guidance_settings sql db' ≡ ok settings
  unfolding set_guidance_settings get_guidance_settings
  get-set_guidance_settings settings db db' utf8 h = elim (Option-cases (marshal settings)) [
    | inl e ↦ ground arith
    | inr (text, e) ↦
        let stored =
          select-replace guidance_key text db db'
            (set_setting-ok guidance_key text db db' (ground arith)) in
        let (read, nonempty) = unmarshal-marshal settings text utf8 e in ground arith
  ]
