-- ===== src/Web/Running.antt =====
-- `NewServer` and `Run` of internal/web/server.go. The templates that are found, and what
-- `ListenAndServe` returns, are given.
use xylitol.Base.{Bool, List, Option, Bytes, Error, Result, ok, err, ◌>>=◌}
use xylitol.Web.{Page, Templates, parse_templates}

-- `Server`, whose storage and SIP server the handlers are given.
pub record WebServer : Type 0 where
  pub templates : Templates
  pub realm : Bytes

unfoldable pub new_server : Option (List (Bytes × Bool)) → (Page → Bool) → Bytes → Result WebServer
unfolding parse_templates
new_server files renders realm = parse_templates files >>= λ names.
    ok (record { templates = record { names = names; renders = renders }; realm = realm })

-- What `ListenAndServe` returns, which never returns nil: `http.ErrServerClosed`, or another error.
pub data ServeEnd : Type 0 where
  server_closed : ServeEnd
  serve_failed : Error → ServeEnd

-- The error of a shutdown is none.
unfoldable pub run : ServeEnd → Result (Unit {0})
run server_closed = ok tt
run (serve_failed e) = err e
