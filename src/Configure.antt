-- ===== src/Configure.antt =====
-- server/configure.go: the flags of the server, and run (`run_server`), which sets its parts up, serves them and
-- closes them. The flags of vault.go, file_store_map.go and web_seeder.go stand here too.
--
-- The flags, the probe, the metrics and the profiler of github.com/webtor-io/common-services are
-- parameters: whether each is there, and what serving comes to.
use torrent_web_seeder.Prelude.{
  ℕ, Bool, true, false, Option, none, some, List, [], ◌∷◌, ◌++◌, Text, codes, Int64, Result, ok,
  err,
}
use torrent_web_seeder.Cli.{Flag, string_flag, int_flag, duration_flag, Context, wrap}
use torrent_web_seeder.TorrentClient.{Options, new_torrent_client}
use torrent_web_seeder.TorrentClient.Flags.{data_dir, register_torrent_client_flags}
use torrent_web_seeder.TorrentStore.{TorrentStore, new_torrent_store, register_torrent_store_flags}
use torrent_web_seeder.StatGrpc.{StatGrpc, new_stat_grpc, register_stat_flags}
use torrent_web_seeder.VaultClient.{Vault, new_vault}
use torrent_web_seeder.Web.{Web, new_web, register_web_flags}

abbrev pub vault_host : Text
vault_host = codes "vault-host"

abbrev pub vault_port : Text
vault_port = codes "vault-port"

abbrev pub input : Text
input = codes "input"

abbrev pub max_readahead : Text
max_readahead = codes "max-readahead"

abbrev pub diagnose_timeout : Text
diagnose_timeout = codes "timeout"

unfoldable pub register_vault_flags : List Flag → List Flag
register_vault_flags f =
    f
    ++ (string_flag vault_host (codes "vault host") [] (codes "VAULT_SERVICE_HOST")
        ∷ int_flag vault_port (codes "http listening port") 8080 (codes "VAULT_SERVICE_PORT")
        ∷ [])

unfoldable pub register_file_store_flags : List Flag → List Flag
register_file_store_flags f =
    f ++ (string_flag input (codes "torrent file path") [] (codes "INPUT") ∷ [])

unfoldable pub register_web_seeder_flags : List Flag → List Flag
register_web_seeder_flags f =
    f
    ++ (string_flag max_readahead (codes "max readahead") (codes "20MB") (codes "MAX_READAHEAD")
        ∷ [])

-- `common` are the flags of the probe, the profiler and the metrics.
unfoldable pub configure_flags : Text → List Flag → List Flag
configure_flags temp_dir common = register_web_seeder_flags (
    register_vault_flags (
      register_stat_flags (
        register_file_store_flags (
          register_torrent_store_flags
            (register_torrent_client_flags temp_dir (register_web_flags common))))))

-- The flags of the command `diagnose`.
unfoldable pub diagnose_flags : Text → List Flag
unfolding register_torrent_client_flags
diagnose_flags temp_dir =
    register_torrent_client_flags temp_dir
      (duration_flag diagnose_timeout (codes "diagnostic timeout") 60_000_000_000 [] ∷ [])

pub data Part : Type 0 where
  torrent_store torrent_client stat_grpc web probe prom pprof : Part

-- What `run` sets up.
pub record Parts (Conn : Type 0) : Type 0 where
  pub store : TorrentStore Conn
  pub client : Options
  pub vault : Option Vault
  pub torrent_file : Text
  pub cache_dir : Text
  pub stat : Option StatGrpc
  pub server : Web
  pub readahead : Int64

pub record Common : Type 0 where
  pub has_probe : Bool
  pub has_prom : Bool
  pub has_pprof : Bool

-- The services in the order in which they are served, the parts in the order in which they are
-- closed, and the error.
pub record RunOutcome : Type 0 where
  pub services : List Part
  pub closed : List Part
  pub error : Option Text

abbrev pub when {ℓ} : {A : Type ℓ} → Bool → A → List A
when true a = a ∷ []
when false a = []

abbrev pub is_set {ℓ} : {A : Type ℓ} → Option A → Bool
is_set none = false
is_set (some a) = true

unfoldable pub services_of : Common → Option StatGrpc → List Part
services_of m stat =
    when (is_set stat) stat_grpc
    ++ (web ∷ (when m.has_probe probe ++ (when m.has_prom prom ++ when m.has_pprof pprof)))

-- The deferred calls run in the reverse order. The status service has none.
unfoldable pub closed_of : Common → List Part
closed_of m =
    when m.has_pprof pprof
    ++ (when m.has_prom prom
        ++ (when m.has_probe probe ++ (web ∷ (torrent_client ∷ (torrent_store ∷ [])))))

module _ (Conn : Type 0) (to_bytes : Text → Result ℕ) where
  unfoldable pub parts_of : Context → Options → ℕ → Parts Conn
  parts_of c client n = record {
    store = new_torrent_store c;
    client = client;
    vault = new_vault (c.string vault_host) (c.int vault_port);
    torrent_file = c.string input;
    cache_dir = c.string data_dir;
    stat = new_stat_grpc c;
    server = new_web c;
    readahead = n;
  }

  -- The parts, or the error and the parts that are closed then.
  unfoldable pub set_up_with :
      Result Options → Result ℕ → (Options → ℕ → Parts Conn) → Result (Parts Conn) × List Part
  set_up_with (err e) r parts = (err e, torrent_store ∷ [])
  set_up_with (ok client) (err e) parts = (
    err (wrap (codes "failed to parse max readahead flag") e),
    torrent_client ∷ (torrent_store ∷ []),
  )
  set_up_with (ok client) (ok n) parts = (ok (parts client n), [])

  unfoldable pub set_up : Context → Result (Parts Conn) × List Part
  unfolding set_up_with parts_of
  set_up c =
      set_up_with (new_torrent_client to_bytes c) (to_bytes (c.string max_readahead)) (parts_of c)

  unfoldable pub run_server : Common → (List Part → Option Text) → Context → RunOutcome
  unfolding set_up services_of closed_of
  run_server m serve c = elim (set_up c).0 [
    | err e ↦ record { services = []; closed = (set_up c).1; error = some e }
    | ok parts ↦ record {
      services = services_of m parts.stat;
      closed = closed_of m;
      error = serve (services_of m parts.stat);
    }
  ]
