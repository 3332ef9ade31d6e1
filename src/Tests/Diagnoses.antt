-- ===== src/Tests/Diagnoses.antt =====
-- server/diagnose.go: a status with two trackers, and a torrent whose peers are idle.
use torrent_web_seeder.Prelude.{
  ◌<◌, ◌≡◌, ◌↔◌, ◌⊎◌, refl, inr, true, [], ◌∷◌, ◌++◌, arith, codes, Text, trim, trim_right,
  has_prefix, trim_left, is_space,
}
use torrent_web_seeder.Diagnosis.{
  TrackerLine, TorrentStats, Format, trackers_header, extract_tracker_lines,
}
use torrent_web_seeder.Diagnosis.Report.{healthy, print_diagnosis}
use torrent_web_seeder.Diagnosis.Verdict.{IsFirst, healthy_exact}
use torrent_web_seeder.Diagnosis.Trackers.{IsPlain, newline, table}
use torrent_web_seeder.Diagnosis.Tables.{Lacks-is_lacking, extract_tracker_lines-table}

abbrev refused : TrackerLine
refused = record { url = codes "udp://a"; status = codes "dial: refused" }

abbrev waiting : TrackerLine
waiting = record { url = codes "http://b/announce"; status = codes "next ann: 45s" }

refused-IsPlain : IsPlain refused
unfolding is_space trim_left
refused-IsPlain = record {
  unquoted = (refl, (refl, (refl, (refl, (refl, (refl, (refl, tt)))))));
  url_line = (refl, (refl, (refl, (refl, (refl, (refl, (refl, tt)))))));
  status_line = (
    refl,
    (
      refl,
      (refl, (refl, (refl, (refl, (refl, (refl, (refl, (refl, (refl, (refl, (refl, tt))))))))))),
    ),
  );
  starts = refl;
  body = codes "dial: refuse";
  last = b'd';
  ends = refl;
  visible = refl;
}

abbrev before : Text
before = codes "Num torrents: 1\n"

abbrev heading : Text
heading = codes "    URL                Extra"

headed : has_prefix (trim is_space heading) (codes "URL") ≡ true
unfolding is_space trim trim_left trim_right has_prefix
headed = refl

titled : trim is_space trackers_header ≡ trackers_header
unfolding is_space trim trim_left trim_right
titled = refl

extract_tracker_lines-table_example :
    extract_tracker_lines (
      before
      ++ (newline
          ∷ (trackers_header
              ++ (newline
                  ∷ (heading ++ (newline ∷ (table (refused ∷ []) ++ (newline ∷ codes "rest"))))))))
    ≡ extract_tracker_lines before ++ ((refused ∷ []) ++ extract_tracker_lines (codes "rest"))
extract_tracker_lines-table_example =
    extract_tracker_lines-table before trackers_header heading (refused ∷ []) (codes "rest") titled
      (Lacks-is_lacking newline trackers_header refl) headed (Lacks-is_lacking newline heading refl)
      (refused-IsPlain, tt)

abbrev idle : TorrentStats
idle = record {
  total_peers = 7;
  active_peers = 0;
  connected_seeders = 0;
  bytes_read_useful_data = 0;
}

abbrev format : Format
format = record { decimal = λ n. codes "n"; tenths = λ a b. codes "q" }

healthy_exact_example : IsFirst healthy (print_diagnosis format true idle []) ↔ (
    (true ≡ true)
    × (0 < idle.total_peers)
    × (((0 < idle.connected_seeders) × (0 < idle.bytes_read_useful_data))
        ⊎ ((idle.connected_seeders ≡ 0) × (idle.active_peers ≡ 0))))
healthy_exact_example = healthy_exact format true idle []

idle_is_healthy : IsFirst healthy (print_diagnosis format true idle [])
idle_is_healthy = (healthy_exact format true idle []).1 (refl, omega arith, inr (refl, refl))
