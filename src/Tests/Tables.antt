-- ===== src/Tests/Tables.antt =====
-- Tables in memory: the interface `Database` on two dictionaries.
use xylitol.Base.{
  ℕ, zero, suc, Bool, true, false, List, [], ◌∷◌, ◌++◌, Option, none, some, Bytes, length, take,
  drop, take-append, drop-append, equal_refl, is_nil, ◌≡◌, refl, subst,
}
use xylitol.Dict.{Dict, lookup, insert, lookup-insert}
use xylitol.Server.Registrar.{User}
use xylitol.Storage.{GuidanceSetting, Row, no_rows, row, Database}

pub record Tables : Type 0 where
  pub users : Dict Bytes
  pub settings : Dict Bytes

abbrev row_of : Bytes → Option Bytes → Row User
row_of name none = no_rows
row_of name (some hash) = row (record { id = 1; username = name; password = hash })

abbrev value_of : Option Bytes → Row Bytes
value_of none = no_rows
value_of (some value) = row value

-- A list of one setting at most, the length of its URI in front.
abbrev encode : List GuidanceSetting → Option Bytes
encode [] = some (0 ∷ [])
encode (setting ∷ []) = some (suc (length setting.uri) ∷ (setting.uri ++ setting.audio_file))
encode _ = none

abbrev decode : Bytes → Option (List GuidanceSetting)
decode (suc n ∷ text) = some (record { uri = take n text; audio_file = drop n text } ∷ [])
decode (zero ∷ text) = some []
decode [] = none

pub decode-encode :
    (settings : List GuidanceSetting) (text : Bytes)
    → encode settings ≡ some text
    → (decode text ≡ some settings) × (is_nil text ≡ false)
decode-encode [] text h =
    let same : 0 ∷ [] ≡ text = cc in
    subst (λ t. (decode t ≡ some []) × (is_nil t ≡ false)) same (refl, refl)
decode-encode (setting ∷ []) text h =
    let same : suc (length setting.uri) ∷ (setting.uri ++ setting.audio_file) ≡ text = cc in
    subst (λ t. (decode t ≡ some (setting ∷ [])) × (is_nil t ≡ false)) same
      (
        rw (take-append setting.uri setting.audio_file, drop-append setting.uri setting.audio_file)
            refl,
        refl,
      )
decode-encode (first ∷ (second ∷ rest)) text h = cc

pub inserted :
    (username password : Bytes) (db db' : Tables)
    → ◌≡◌ {A = Bool × Tables}
        (true, record db { users = insert username password db.users })
        (true, db')
    → (n : ℕ) × (row_of username (lookup username db'.users)
        ≡ row (record { id = n; username = username; password = password }))
inserted username password db db' h =
    let same : record db { users = insert username password db.users } ≡ db' = cc in
    (
      1,
      subst
          (λ x.
            row_of username (lookup username x.users)
            ≡ row (record { id = 1; username = username; password = password }))
          same (rw (lookup-insert username username password db.users, equal_refl username) refl),
    )

pub replaced :
    (key value : Bytes) (db db' : Tables)
    → ◌≡◌ {A = Bool × Tables}
        (true, record db { settings = insert key value db.settings })
        (true, db')
    → value_of (lookup key db'.settings) ≡ row value
replaced key value db db' h =
    let same : record db { settings = insert key value db.settings } ≡ db' = cc in
    subst (λ x. value_of (lookup key x.settings) ≡ row value) same
      (rw (lookup-insert key key value db.settings, equal_refl key) refl)

abbrev pub tables : Database
tables = record {
  Db = Tables;
  prepares = λ statement db. true;
  insert_user =
      λ username password db. (true, record db { users = insert username password db.users });
  last_insert_id = λ db. some 1;
  select_user = λ username db. row_of username (lookup username db.users);
  select_users = λ db. some ([], true);
  select_setting = λ key db. value_of (lookup key db.settings);
  replace_setting = λ key value db. (true, record db { settings = insert key value db.settings });
  marshal = encode;
  unmarshal = decode;
  is_utf8 = λ text. true;
  select-insert = inserted;
  select-replace = replaced;
  unmarshal-marshal = λ settings text utf8 h. decode-encode settings text h;
}
