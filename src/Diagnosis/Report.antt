-- ===== src/Diagnosis/Report.antt =====
-- printDiagnosis.
use torrent_web_seeder.Prelude.{
  Bool, true, false, ◌&&◌, List, [], ◌∷◌, ◌++◌, ◌==◌, ltb, if◌then◌else◌, length, Text, codes,
}
use torrent_web_seeder.Diagnosis.{
  TrackerLine, tracker_failures, TorrentStats, Format, Line, said, peers, downloaded, note,
  format_bytes,
}

-- The dash in UTF-8.
abbrev dash : Text
dash = 226 ∷ 128 ∷ 148 ∷ []

abbrev pub no_metadata : Line
no_metadata = said (codes "[PROBLEM] Could not resolve torrent metadata.")

abbrev pub no_peers : Line
no_peers = said (codes "[PROBLEM] No peers discovered.")

abbrev pub no_seeders : Line
no_seeders = said (codes "[WARNING] Peers found but no seeders connected.")

abbrev pub no_data : Line
no_data = said (codes "[WARNING] Seeders connected but no data received.")

abbrev pub healthy : Line
healthy = said (codes "[OK] Torrent appears healthy.")

unfoldable pub all_trackers_failed : List TrackerLine → Bool
unfolding tracker_failures
all_trackers_failed trackers =
    ltb 0 (length trackers) && tracker_failures trackers == length trackers

abbrev metadata_causes : Bool → List Line
metadata_causes true =
    said (codes "  All trackers failed! Check tracker errors above.")
    ∷ said (codes "  Common causes:")
    ∷ said (codes "  - Tracker blocked your IP address")
    ∷ said (codes "  - Torrent was removed from tracker")
    ∷ said (codes "  - Tracker is down or unreachable")
    ∷ []
metadata_causes false =
    said (codes "  Possible causes:")
    ∷ said (codes "  - No peers/seeders available for this torrent")
    ∷ said (codes "  - All trackers are unreachable or blocked your IP")
    ∷ said (codes "  - DHT is not finding peers for this info hash")
    ∷ said (codes "  - Firewall blocking BitTorrent traffic (TCP/UDP)")
    ∷ []

abbrev metadata_suggestions : List Line
metadata_suggestions =
    said (codes "  Suggestions:")
    ∷ said (codes "  - Try with --torrent-client-debug for verbose output")
    ∷ said (codes "  - Check if trackers are accessible from this network")
    ∷ said (codes "  - Try with --http-proxy to test from a different IP")
    ∷ []

abbrev peer_causes : List Line
peer_causes =
    said (codes "  Possible causes:")
    ∷ said (codes "  - Torrent is dead (no active seeders/leechers)")
    ∷ said (codes "  - Trackers are blocking your IP")
    ∷ said (codes "  - DHT/PEX not discovering peers")
    ∷ said (codes "  Suggestions:")
    ∷ said (codes "  - Try the same magnet in a regular torrent client for comparison")
    ∷ []

abbrev seeder_causes : List Line
seeder_causes =
    said (
      codes "  - Only leechers are available "
      ++ (dash ++ codes " torrent may be partially seeded"))
    ∷ said (codes "  - Try waiting longer or check if seeders are available at different times")
    ∷ []

abbrev data_causes : List Line
data_causes =
    said (codes "  Possible causes:")
    ∷ said (codes "  - Seeders are choking this client")
    ∷ said (codes "  - Download rate limit too restrictive (check --download-rate)")
    ∷ said (codes "  - Piece verification issues")
    ∷ []

-- The lines in the order in which they are printed.
unfoldable pub print_diagnosis : Format → Bool → TorrentStats → List TrackerLine → List Line
unfolding all_trackers_failed tracker_failures format_bytes
print_diagnosis F false s trackers =
    no_metadata ∷ (metadata_causes (all_trackers_failed trackers) ++ metadata_suggestions)
print_diagnosis F true s trackers =
    if s.total_peers == 0
    then no_peers
      ∷ ((if all_trackers_failed trackers
            then said
                (codes "  All trackers failed " ++ (dash ++ codes " see tracker errors above."))
              ∷ []
            else [])
          ++ peer_causes)
    else if s.connected_seeders == 0 && ltb 0 s.active_peers
    then no_seeders ∷ seeder_causes
    else if s.bytes_read_useful_data == 0 && ltb 0 s.connected_seeders
    then no_data ∷ data_causes
    else healthy
      ∷ peers s.active_peers s.connected_seeders
      ∷ downloaded (format_bytes F s.bytes_read_useful_data)
      ∷ (if ltb 0 (tracker_failures trackers)
          then note (tracker_failures trackers) (length trackers) ∷ []
          else [])
