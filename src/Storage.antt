-- ===== src/Storage.antt =====
-- The user table and the settings table (internal/storage/storage.go).
--
-- The SQL driver and the JSON package are not code of the repository: they are the interface
-- `Database`, whose laws are those of a table with a unique key, of `INSERT OR REPLACE` and of
-- decoding what was encoded.
pub mod Laws
use xylitol.Base.{
  All, ℕ, Bool, true, false, not, List, [], ◌∷◌, Option, none, some, if◌then◌else◌, Bytes, codes,
  is_nil, Result, ok, err, panic, ◌>>=◌, ◌≡◌, could_not_open, could_not_connect,
  could_not_create_tables, could_not_prepare, could_not_execute, no_insert_id, could_not_query,
  could_not_scan, rows_failed, could_not_marshal, could_not_unmarshal,
}
use xylitol.Server.Registrar.{User, Found, query_failed, not_found, found}

pub record GuidanceSetting : Type 0 where
  pub uri : Bytes
  pub audio_file : Bytes

-- The outcome of `QueryRow(…).Scan(…)`.
pub data Row (A : Type 0) : Type 0 where
  row_failed no_rows : Row A
  row : A → Row A

-- The statements that the code prepares.
pub data Statement : Type 0 where
  insert_into_users select_from_users insert_or_replace_into_settings : Statement

-- One round of `rows.Next()`: the row, or `none` where `Scan` fails.
abbrev pub ScannedRows : Type 0
ScannedRows = List (Option User)

pub record Database : Type 1 where
  pub Db : Type 0
  pub prepares : Statement → Db → Bool
  -- whether the statement was executed, and the tables behind it
  pub insert_user : Bytes → Bytes → Db → Bool × Db
  pub last_insert_id : Db → Option ℕ
  pub select_user : Bytes → Db → Row User
  -- `none` where the query fails; else the rows and whether `rows.Err()` is nil
  pub select_users : Db → Option (ScannedRows × Bool)
  pub select_setting : Bytes → Db → Row Bytes
  pub replace_setting : Bytes → Bytes → Db → Bool × Db
  pub marshal : List GuidanceSetting → Option Bytes
  pub unmarshal : Bytes → Option (List GuidanceSetting)
  pub is_utf8 : Bytes → Bool  -- `utf8.Valid`
  pub select-insert :
      (username password : Bytes) (db db' : Db)
      → insert_user username password db ≡ (true, db')
      → (n : ℕ) × (select_user username db'
          ≡ row (record { id = n; username = username; password = password }))
  pub select-replace :
      (key value : Bytes) (db db' : Db)
      → replace_setting key value db ≡ (true, db')
      → select_setting key db' ≡ row value
  pub unmarshal-marshal :
      (settings : List GuidanceSetting) (text : Bytes)
      → All (λ x. (is_utf8 x.uri ≡ true) × (is_utf8 x.audio_file ≡ true)) settings
      → marshal settings ≡ some text
      → (unmarshal text ≡ some settings) × (is_nil text ≡ false)

-- `createTables` by the outcomes of its two statements; the second is not tried behind a failure.
unfoldable pub create_tables : Bool → Bool → Result (Unit {0})
create_tables users settings =
    if not users
    then err could_not_create_tables
    else if not settings
    then err could_not_create_tables
    else ok tt

-- `NewStorage` by the outcomes of `sql.Open`, `Ping` and the statements of `createTables`.
unfoldable pub new_storage : Bool → Bool → Bool → Bool → Result (Unit {0})
unfolding create_tables
new_storage opened pinged users settings =
    if not opened
    then err could_not_open
    else if not pinged
    then err could_not_connect
    else create_tables users settings

-- `Close` passes on what the driver says.
unfoldable pub close : Result (Unit {0}) → Result (Unit {0})
close closed = closed

abbrev pub guidance_key : Bytes
guidance_key = codes "guidance_settings"

-- The loop of `GetAllUsers` over the rows.
scan_rows : ScannedRows → Result (List User)
scan_rows [] = ok []
scan_rows (none ∷ rows) = err could_not_scan
scan_rows (some user ∷ rows) = scan_rows rows >>= λ users. ok (user ∷ users)

users_of : Option (ScannedRows × Bool) → Result (List User)
unfolding scan_rows
users_of none = err could_not_query
users_of (some (rows, fine)) =
    scan_rows rows >>= λ users. if fine then ok users else err rows_failed

module _ (sql : Database) where
  open sql use {
    Db, prepares, insert_user, last_insert_id, select_user, select_users, select_setting,
    replace_setting, marshal, unmarshal,
  }

  -- The id of the user is set at the end.
  unfoldable pub add_user : User → Db → Result User × Db
  add_user user db =
      if not (prepares insert_into_users db)
      then (err could_not_prepare, db)
      else let (executed, db') = insert_user user.username user.password db in
        if not executed then (err could_not_execute, db') else elim (last_insert_id db') [
          | none ↦ (err no_insert_id, db')
          | some n ↦ (ok (record user { id = n }), db')
        ]

  unfoldable pub get_user_by_username : Bytes → Db → Result (Option User)
  get_user_by_username username db =
      if not (prepares select_from_users db)
      then err could_not_prepare
      else elim (select_user username db) [
        | row_failed ↦ err could_not_query
        | no_rows ↦ ok none
        | row user ↦ ok (some user)
      ]

  unfoldable pub get_all_users : Db → Result (List User)
  unfolding users_of
  get_all_users db = users_of (select_users db)

  unfoldable pub get_setting : Bytes → Db → Result Bytes
  get_setting key db = elim (select_setting key db) [
    | row_failed ↦ err could_not_query
    | no_rows ↦ ok []
    | row value ↦ ok value
  ]

  unfoldable pub set_setting : Bytes → Bytes → Db → Result (Unit {0}) × Db
  set_setting key value db =
      if not (prepares insert_or_replace_into_settings db)
      then (err could_not_prepare, db)
      else let (executed, db') = replace_setting key value db in
        if executed then (ok tt, db') else (err could_not_execute, db')

  decode_settings : Bytes → Result (List GuidanceSetting)
  decode_settings text =
      if is_nil text
      then ok []
      else elim (unmarshal text) [ none ↦ err could_not_unmarshal | some settings ↦ ok settings ]

  unfoldable pub get_guidance_settings : Db → Result (List GuidanceSetting)
  unfolding get_setting decode_settings
  get_guidance_settings db = get_setting guidance_key db >>= decode_settings

  unfoldable pub set_guidance_settings : List GuidanceSetting → Db → Result (Unit {0}) × Db
  unfolding set_setting
  set_guidance_settings settings db = elim (marshal settings) [
    | none ↦ (err could_not_marshal, db)
    | some text ↦ set_setting guidance_key text db
  ]

  -- What the registrar sees of the table.
  unfoldable pub find_user : Db → Bytes → Found
  unfolding get_user_by_username
  find_user db username = elim (get_user_by_username username db) [
    | ok none ↦ not_found
    | ok (some user) ↦ found user
    | _ ↦ query_failed
  ]
