-- ===== src/Tests/Events.antt =====
-- server/services/stat_web.go and the monitor of server/services/torrent_map.go on short runs.
use torrent_web_seeder.Prelude.{
  ℕ, ◌≡◌, ◌==◌, if◌then◌else◌, refl, List, [], ◌∷◌, Text, codes, Result, ok, err, lt64,
}
use torrent_web_seeder.StatWeb.{new_stat_stream_server}
use torrent_web_seeder.StatWeb.Numbered.{
  Event, ticked, replied, left, IsNumbered, updates, sent, run, run_delivers,
}
use torrent_web_seeder.TorrentMap.Monitor.{Sample, first_byte, new_monitor, reached, run_monitor}
use torrent_web_seeder.TorrentMap.Measured.{times, first_time, run_monitor_once}

abbrev decimal : ℕ → Text
decimal n = codes "n"

abbrev marshal : ℕ → Result Text
marshal n = if n == 7 then err (codes "json") else ok (n ∷ [])

abbrev events : List (Event ℕ)
events = replied 3 ∷ ticked 10 ∷ replied 7 ∷ replied 4 ∷ left ∷ replied 5 ∷ []

run_delivers_example :
    IsNumbered decimal marshal
      (codes "gone")
      (run decimal marshal (codes "gone") new_stat_stream_server events)
    × (updates (run decimal marshal (codes "gone") new_stat_stream_server events).frames
        ≡ sent decimal marshal (codes "gone") events)
run_delivers_example = run_delivers decimal marshal (codes "gone") events

two_sent : sent decimal marshal (codes "gone") events ≡ (3 ∷ []) ∷ (4 ∷ []) ∷ []
unfolding sent
two_sent = refl

abbrev samples : List Sample
samples =
    record { active_peers = 0; bytes_read = 0; useful_data = 0; since_start = 50 }
    ∷ record { active_peers = 12; bytes_read = 5; useful_data = 0; since_start = 100 }
    ∷ record { active_peers = 3; bytes_read = 9; useful_data = 4; since_start = 150 }
    ∷ record { active_peers = 3; bytes_read = 9; useful_data = 8; since_start = 200 }
    ∷ []

run_monitor_once_example :
    times first_byte (run_monitor new_monitor samples) ≡ first_time first_byte samples
run_monitor_once_example = run_monitor_once first_byte samples

first_useful : first_time first_byte samples ≡ 150 ∷ []
unfolding first_time reached lt64
first_useful = refl
