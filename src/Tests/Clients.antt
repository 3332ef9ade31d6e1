-- ===== src/Tests/Clients.antt =====
-- server/services/torrent_client.go, stat_grpc.go and server/configure.go on small inputs.
use torrent_web_seeder.Prelude.{
  ℕ, arith, ◌≡◌, ◌≢◌, refl, true, false, none, some, [], ◌∷◌, codes, text_eq, elem, Unique, map,
  is_nil, ok, err, if◌then◌else◌,
}
use torrent_web_seeder.Cli.{Context, flag_name}
use torrent_web_seeder.TorrentClient.{new_torrent_client}
use torrent_web_seeder.TorrentClient.Flags.{register_torrent_client_flags}
use torrent_web_seeder.TorrentClient.Life.{
  TorrentClient, returned, Steps, here, next, gets, never_started, get_client,
}
use torrent_web_seeder.TorrentClient.Running.{one_client, get_client_fails_for_good}
use torrent_web_seeder.TorrentClient.Racing.{handed_out_closed}
use torrent_web_seeder.TorrentStore.{register_torrent_store_flags}
use torrent_web_seeder.StatGrpc.{register_stat_flags, new_stat_grpc}
use torrent_web_seeder.Web.{register_web_flags}
use torrent_web_seeder.Configure.{
  web, probe, prom, pprof, torrent_client, torrent_store, run_server, configure_flags,
  register_file_store_flags, register_vault_flags, register_web_seeder_flags,
}

abbrev started : TorrentClient
started = (get_client (ok tt) never_started).0

started-Steps : Steps never_started started
started-Steps = next (gets (ok tt)) here

one_client_example : (started.cl ≡ some 0) × ((started.clients 0).watcher ≢ returned)
unfolding get_client
one_client_example = one_client 0 started-Steps refl

get_client_fails_for_good_example :
    get_client (ok tt) (get_client (err (codes "no")) never_started).0
    ≡ ((get_client (err (codes "no")) never_started).0, (none, some (codes "no")))
get_client_fails_for_good_example =
    get_client_fails_for_good (codes "no") never_started
      (get_client (err (codes "no")) never_started).0 (ok tt) refl here

handed_out_closed_example :
    (t : TorrentClient) × (u : TorrentClient) × Steps started t
    × ((get_client (ok tt) t).1.0 ≡ some 0)
    × Steps (get_client (ok tt) t).0 u
    × ((u.clients 0).torrents ≡ 1)
    × ((u.clients 0).is_open ≡ false)
unfolding get_client
handed_out_closed_example = handed_out_closed started 0 1 (ok tt) started-Steps refl refl refl refl

-- A command line on which every flag is empty.
abbrev bare : Context
bare = record {
  string = λ n. [];
  int = λ n. 0;
  duration = λ n. 0;
  bool = λ n. false;
  bool_t = λ n. false;
}

-- No flag of the server is registered twice.
flags_differ : Unique (map flag_name (configure_flags [] []))
unfolding configure_flags register_web_flags register_torrent_client_flags
    register_torrent_store_flags register_file_store_flags register_stat_flags register_vault_flags
    register_web_seeder_flags text_eq elem flag_name
flags_differ = ground arith

-- Without a readable budget nothing is served, and what was set up before is closed.
failed_run :
    run_server ℕ
      (λ t. if is_nil t then err (codes "empty") else ok 7)
      (record { has_probe = true; has_prom = true; has_pprof = true })
      (λ l. none)
      bare
    ≡ record {
      services = [];
      closed = torrent_client ∷ torrent_store ∷ [];
      error = some (codes "failed to parse max readahead flag: empty");
    }
unfolding run_server new_torrent_client
failed_run = refl

-- A run with all flags empty serves everything but the status service.
bare_run :
    run_server ℕ
      (λ t. ok 7)
      (record { has_probe = true; has_prom = true; has_pprof = true })
      (λ l. none)
      bare
    ≡ record {
      services = web ∷ probe ∷ prom ∷ pprof ∷ [];
      closed = pprof ∷ prom ∷ probe ∷ web ∷ torrent_client ∷ torrent_store ∷ [];
      error = none;
    }
unfolding run_server new_torrent_client new_stat_grpc
bare_run = refl
