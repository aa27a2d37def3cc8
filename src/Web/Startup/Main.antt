-- ===== src/Web/Startup/Main.antt =====
-- `main` (cmd/server/main.go): the parts of the program in the order in which they are made.
use xylitol.Base.{Bool, List, Option, Bytes, codes, Error, Result, ok, err, panic, ◌>>=◌}
use xylitol.Server.State.{SipServer}
use xylitol.Storage.{Database}
use xylitol.Web.{Page}
use xylitol.Web.Running.{WebServer, new_server}
use xylitol.Web.Startup.{start_sip_server}

-- The flags.
pub record Config : Type 0 where
  pub web_addr : Bytes
  pub sip_addr : Bytes
  pub db_path : Bytes
  pub realm : Bytes

abbrev pub default_config : Config
default_config = record {
  web_addr = codes ":8080";
  sip_addr = codes ":5060";
  db_path = codes "sip_users.db";
  realm = codes "go-sip-server";
}

-- How the program ends: by `log.Fatalf`, by a panic, or with what `Wait` returns for the two
-- servers.
pub data Exit : Type 0 where
  fatal : Error → Exit
  crashed : Exit
  waited : Result (Unit {0}) → Exit

module _ (sql : Database) where
  open sql use {Db}

  -- The two servers.
  unfoldable pub make_servers :
      Option (List (Bytes × Bool))
      → (Page → Bool)
      → Bytes
      → Db
      → Result (SipServer × WebServer) × Db
  unfolding start_sip_server new_server
  make_servers files renders realm db =
      let (sip, db') = start_sip_server sql realm db in
      (sip >>= (λ s. new_server files renders realm >>= λ web. ok (s, web)), db')

  abbrev exit_of : Result (Unit {0}) → Result (SipServer × WebServer) × Db → Exit × Db
  exit_of outcome (ok servers, db) = (waited outcome, db)
  exit_of outcome (err e, db) = (fatal e, db)
  exit_of outcome (panic, db) = (crashed, db)

  -- `opened` is what `NewStorage` returns, and `outcome` what `Wait` returns.
  unfoldable pub main :
      Result (Unit {0})
      → Option (List (Bytes × Bool))
      → (Page → Bool)
      → Config
      → Result (Unit {0})
      → Db
      → Exit × Db
  unfolding make_servers
  main opened files renders config outcome db = elim opened [
    | ok _ ↦ exit_of outcome (make_servers files renders config.realm db)
    | err e ↦ (fatal e, db)
    | panic ↦ (crashed, db)
  ]
