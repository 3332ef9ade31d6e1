-- ===== src/Tests/Endings.antt =====
-- server/diagnose.go: a run of the command on a magnet link whose metadata never arrive.
use torrent_web_seeder.Prelude.{◌≡◌, false, none, some, [], ◌∷◌, codes, ok, err}
use torrent_web_seeder.Diagnosis.{Format}
use torrent_web_seeder.Diagnosis.Phases.{Stats, timed_out, ticked, test_over}
use torrent_web_seeder.Diagnosis.Command.{World, Report, run_diagnose}
use torrent_web_seeder.Diagnosis.Ending.{Ends, run_diagnose-Ends}
use torrent_web_seeder.Diagnosis.Waits.{MetaEnds, TestEnds}

abbrev format : Format
format = record { decimal = λ n. codes "n"; tenths = λ a b. codes "q" }

abbrev nothing : Stats
nothing = record {
  shown = record {
    total_peers = 0;
    active_peers = 0;
    connected_seeders = 0;
    bytes_read_useful_data = 0;
  };
  half_open_peers = 0;
  pending_peers = 0;
  bytes_read = 0;
  pieces_complete = 0;
}

abbrev lonely : World format
lonely = record {
  new_client = none;
  start_client = none;
  listen_addrs = [];
  dht_servers = 1;
  parse_magnet = λ t. ok (record { info_hash = codes "h"; display_name = []; trackers = [] });
  add_magnet = λ t. none;
  load_file = λ t. err (codes "no file");
  add_torrent = none;
  info_known = false;
  meta_events = ticked 5_000_000_000 nothing ∷ timed_out 60_000_000_000 ∷ [];
  info = record { name = []; total_length = 0; num_pieces = 0; piece_length = 0; files = [] };
  since = 60_000_000_000;
  test_events = test_over ∷ [];
  status = [];
  stats = nothing;
  num_pieces = 0;
  peer_conns = [];
}

lonely-MetaEnds : MetaEnds lonely.meta_events
unfolding MetaEnds
lonely-MetaEnds = tt

lonely-TestEnds : TestEnds lonely.test_events
unfolding TestEnds
lonely-TestEnds = tt

run_diagnose-Ends_example :
    (r : Report format) × (run_diagnose format lonely 60_000_000_000 (codes "magnet:?") ≡ some r)
    × Ends format lonely 60_000_000_000 lonely-MetaEnds lonely-TestEnds (codes "magnet:?") r
run_diagnose-Ends_example =
    run_diagnose-Ends format lonely 60_000_000_000 lonely-MetaEnds lonely-TestEnds
      (codes "magnet:?")
