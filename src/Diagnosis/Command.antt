-- ===== src/Diagnosis/Command.antt =====
-- server/diagnose.go: `runDiagnose`, from its argument to the diagnosis.
use torrent_web_seeder.Prelude.{
  ℕ, Bool, true, false, Option, none, some, List, [], ◌∷◌, ◌++◌, ltb, if◌then◌else◌, length, map,
  Text, codes, is_nil, has_prefix, join, Int64, Result, ok, err,
}
use torrent_web_seeder.Diagnosis.{Format, format_bytes, extract_tracker_lines}
use torrent_web_seeder.Diagnosis.Report.{print_diagnosis}
use torrent_web_seeder.Diagnosis.Phases.{
  Printed, line, failure, field, count, verdict, Stats, TorrentInfo, Magnet, MetaFile, MetaEvent,
  TestEvent, PeerConn, meta_phase, info_lines, test_phase, tracker_phase, stats_phase, peer_phase,
}

abbrev pub usage : Text
usage = codes "usage: torrent-web-seeder diagnose <magnet-uri or .torrent path>"

module _ (F : Format) where
  -- What the world comes to, in the order in which it is asked.
  pub record World : Type 0 where
    pub new_client : Option Text
    pub start_client : Option Text
    pub listen_addrs : List Text
    pub dht_servers : ℕ
    pub parse_magnet : Text → Result Magnet
    pub add_magnet : Text → Option Text
    pub load_file : Text → Result MetaFile
    pub add_torrent : Option Text
    pub info_known : Bool
    pub meta_events : List MetaEvent
    pub info : TorrentInfo
    pub since : Int64
    pub test_events : List TestEvent
    pub status : Text
    pub stats : Stats
    pub num_pieces : ℕ
    pub peer_conns : List PeerConn

  -- Phase 2 for a magnet link: the lines, and the error.
  unfoldable pub magnet_phase : World → Text → List Printed × Option Text
  magnet_phase w input = elim (w.parse_magnet input) [
    | err e ↦ (failure (codes "Invalid magnet URI") e ∷ [], some e)
    | ok m ↦
        (let shown =
            line (codes "Type: magnet link")
            ∷ (field (codes "Info Hash") m.info_hash
                ∷ ((if is_nil m.display_name
                      then []
                      else field (codes "Display Name") m.display_name ∷ [])
                    ++ (count (codes "Trackers") (length m.trackers) ∷ map line m.trackers))) in
          elim (w.add_magnet input) [
            | some e ↦ (shown ++ (failure (codes "Add magnet") e ∷ []), some e)
            | none ↦ (shown ++ (line (codes "[OK]   Magnet added to client") ∷ []), none)
          ])
  ]

  unfoldable pub concat : List (List Text) → List Text
  concat [] = []
  concat (tier ∷ tiers) = tier ++ concat tiers

  -- Phase 2 for a .torrent file.
  unfoldable pub file_phase : World → Text → List Printed × Option Text
  unfolding concat
  file_phase w input = elim (w.load_file input) [
    | err e ↦ (failure (codes "Load .torrent file") e ∷ [], some e)
    | ok mi ↦ elim mi.info [
      | err e ↦ (failure (codes "Parse torrent info") e ∷ [], some e)
      | ok (name, size) ↦
          (let shown =
              line (codes "Type: .torrent file")
              ∷ (field (codes "Info Hash") mi.info_hash
                  ∷ (field (codes "Name") name
                      ∷ (field (codes "Size") (format_bytes F size)
                          ∷ (count (codes "Trackers") (length (concat mi.announce_list))
                              ∷ map line (concat mi.announce_list))))) in
            elim w.add_torrent [
              | some e ↦ (shown ++ (failure (codes "Add torrent") e ∷ []), some e)
              | none ↦ (shown ++ (line (codes "[OK]   Torrent added to client") ∷ []), none)
            ])
    ]
  ]

  unfoldable pub input_phase : World → Text → List Printed × Option Text
  unfolding magnet_phase file_phase
  input_phase w input =
      let (ls, e) =
        (if has_prefix input (codes "magnet:") then magnet_phase w input else file_phase w input) in
      (line (codes "--- Torrent Input ---") ∷ ls, e)

  -- Phases 5 to 10.
  unfoldable pub final_phases : World → Bool → List Printed
  unfolding tracker_phase stats_phase peer_phase
  final_phases w got =
      let trackers = extract_tracker_lines w.status in
      tracker_phase F trackers
      ++ (stats_phase F got w.num_pieces w.stats
          ++ (peer_phase F w.peer_conns
              ++ (line (codes "--- Raw Client Status ---")
                  ∷ (line w.status
                      ∷ (line (codes "=== Diagnosis ===")
                          ∷ map verdict (print_diagnosis F got w.stats.shown trackers))))))

  -- Phases 3 to 10. `none`: a loop still waits.
  unfoldable pub torrent_phases : World → Int64 → Option (List Printed)
  unfolding meta_phase test_phase final_phases
  torrent_phases w timeout = elim (meta_phase w.info_known timeout w.meta_events) [
    | none ↦ none
    | some (ls, false) ↦ some (ls ++ final_phases w false)
    | some (ls, true) ↦ elim (test_phase F timeout w.since w.test_events) [
      | none ↦ none
      | some test ↦ some (ls ++ (info_lines F w.info ++ (test ++ final_phases w true)))
    ]
  ]

  -- What is printed, the error that is returned, and whether the client is closed, that is, whether
  -- it was made.
  pub record Report : Type 0 where
    pub printed : List Printed
    pub error : Option Text
    pub closed : Bool

  unfoldable pub add_to : List Printed → Option (List Printed) → Option Report
  add_to before none = none
  add_to before (some ls) = some (record { printed = before ++ ls; error = none; closed = true })

  abbrev pub first_lines : List Printed
  first_lines =
      line (codes "=== Torrent Diagnostics ===")
      ∷ (line (codes "--- Client Initialization ---") ∷ [])

  unfoldable pub client_lines : World → List Printed
  client_lines w =
      first_lines
      ++ (line (codes "[OK]   Client started")
          ∷ ((if ltb 0 (length w.listen_addrs)
                then field (codes "Listen") (join w.listen_addrs (codes ", ")) ∷ []
                else [])
              ++ (count (codes "DHT servers") w.dht_servers ∷ [])))

  unfoldable pub run_diagnose : World → Int64 → Text → Option Report
  unfolding input_phase torrent_phases add_to client_lines
  run_diagnose w timeout input =
      if is_nil input
      then some (record { printed = []; error = some usage; closed = false })
      else elim w.new_client [
        | some e ↦ some (record {
          printed = first_lines ++ (failure (codes "Client init error") e ∷ []);
          error = some e;
          closed = false;
        })
        | none ↦ elim w.start_client [
          | some e ↦ some (record {
            printed = first_lines ++ (failure (codes "Client start error") e ∷ []);
            error = some e;
            closed = true;
          })
          | none ↦
              (let (ls, e) = input_phase w input in
                elim e [
                  | some f ↦
                      some
                        (record { printed = client_lines w ++ ls; error = some f; closed = true })
                  | none ↦ add_to (client_lines w ++ ls) (torrent_phases w timeout)
                ])
        ]
      ]
