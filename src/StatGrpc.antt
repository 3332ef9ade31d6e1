-- ===== src/StatGrpc.antt =====
-- server/services/stat_grpc.go: whether there is a status service, and what Serve comes to.
--
-- net.Listen and the service's own Serve are parameters; `decimal` is the verb %d.
use torrent_web_seeder.Prelude.{
  Option, none, some, List, [], ◌∷◌, ◌++◌, if◌then◌else◌, Text, codes, Int64,
}
use torrent_web_seeder.Cli.{Flag, string_flag, int_flag, bool_t_flag, Context, wrap}

abbrev pub stat_host : Text
stat_host = codes "stat-host"

abbrev pub stat_port : Text
stat_port = codes "stat-port"

abbrev pub use_stat : Text
use_stat = codes "use-stat"

unfoldable pub register_stat_flags : List Flag → List Flag
register_stat_flags f =
    f
    ++ (string_flag stat_host (codes "stat listening host") [] (codes "STAT_HOST")
        ∷ int_flag stat_port (codes "stat listening port") 50051 (codes "STAT_PORT")
        ∷ bool_t_flag use_stat (codes "enable stat service") (codes "USE_STAT")
        ∷ [])

-- The host and the port of StatGRPC.
pub record StatGrpc : Type 0 where
  pub host : Text
  pub port : Int64

unfoldable pub new_stat_grpc : Context → Option StatGrpc
new_stat_grpc c =
    if c.bool_t stat_host
    then some (record { host = c.string stat_host; port = c.int stat_port })
    else none

-- Get: `get` never fails, and sync.Once calls it once.
unfoldable pub serve_stat :
    (Int64 → Text) → (Text → Option Text) → Option Text → StatGrpc → Option Text
serve_stat decimal listen serve ss = elim (listen (ss.host ++ (codes ":" ++ decimal ss.port))) [
  | some e ↦ some (wrap (codes "failed to listen to tcp connection") e)
  | none ↦ serve
]
