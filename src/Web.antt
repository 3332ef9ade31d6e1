-- ===== src/Web.antt =====
-- server/services/web.go: the HTTP server in front of the web seeder.
--
-- net.Listen and http.Serve are parameters; `decimal` is the verb %d.
use torrent_web_seeder.Prelude.{
  Bool, true, false, Option, none, some, List, [], ◌∷◌, ◌++◌, Text, codes, Int64,
}
use torrent_web_seeder.Cli.{Flag, string_flag, int_flag, Context}

abbrev pub web_host : Text
web_host = codes "host"

abbrev pub web_port : Text
web_port = codes "port"

unfoldable pub register_web_flags : List Flag → List Flag
register_web_flags f =
    f
    ++ (string_flag web_host (codes "listening host") [] (codes "WEB_HOST")
        ∷ int_flag web_port (codes "http listening port") 8080 (codes "WEB_PORT")
        ∷ [])

-- `listening` says that the listener is not nil.
pub record Web : Type 0 where
  pub host : Text
  pub port : Int64
  pub listening : Bool

unfoldable pub new_web : Context → Web
new_web c = record { host = c.string web_host; port = c.int web_port; listening = false }

-- Serve: an error of net.Listen is not returned.
unfoldable pub serve_web :
    (Int64 → Text) → (Text → Option Text) → Option Text → Web → Web × Option Text
serve_web decimal listen serve s = elim (listen (s.host ++ (codes ":" ++ decimal s.port))) [
  | some e ↦ (s, none)
  | none ↦ (record s { listening = true }, serve)
]
