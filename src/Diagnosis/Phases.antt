-- ===== src/Diagnosis/Phases.antt =====
-- server/diagnose.go: the phases of `runDiagnose` and what each prints.
--
-- What the client, the parsers and the timers come to is a parameter. A loop over the channels of
-- timers runs over the events that it receives. A line is its text, or the values that it formats;
-- empty lines are left out.
use torrent_web_seeder.Prelude.{
  ℕ, ◌-◌, Bool, true, false, ◌&&◌, Option, none, some, List, [], ◌∷◌, ◌++◌, ◌==◌, ltb,
  if◌then◌else◌, length, map, take, Text, codes, join, Int64, lt64, sub64, Result,
}
use torrent_web_seeder.Diagnosis.{
  TrackerLine, TorrentStats, Format, Line, format_bytes, marker, test_duration,
}

pub data Printed : Type 0 where
  line : Text → Printed
  failure : Text → Text → Printed  -- [FAIL] what failed: %v
  field : Text → Text → Printed
  count : Text → ℕ → Printed
  waiting : Int64 → Printed
  received : Int64 → Printed  -- [OK]   Metadata received in %.1fs
  not_received : Int64 → Printed
  meta_progress : Int64 → ℕ → ℕ → ℕ → Printed  -- elapsed, peers, seeders, half-open
  pieces : ℕ → Text → Printed
  file : Text → Text → Printed
  more : ℕ → Printed  -- ... and %d more
  testing : Int64 → Printed
  -- elapsed, peers, seeders, downloaded, and the bytes of the last 3 seconds.
  progress : Int64 → ℕ → ℕ → Text → Int64 → Printed
  first_data : Int64 → Printed
  tracker : Text → Text → Printed
  bytes_read : Text → Text → Printed
  complete : ℕ → ℕ → Printed
  peer : Text → Text → Text → Printed
  verdict : Line → Printed

pub record Stats : Type 0 where
  pub shown : TorrentStats
  pub half_open_peers : ℕ
  pub pending_peers : ℕ
  pub bytes_read : Int64
  pub pieces_complete : ℕ

pub record File : Type 0 where
  pub best_path : List Text
  pub length : Int64

-- The info of a torrent, once it is known.
pub record TorrentInfo : Type 0 where
  pub name : Text
  pub total_length : Int64
  pub num_pieces : ℕ
  pub piece_length : Int64
  pub files : List File

pub record Magnet : Type 0 where
  pub info_hash : Text
  pub display_name : Text
  pub trackers : List Text

-- A .torrent file: its hash, its info and its tiers of trackers.
pub record MetaFile : Type 0 where
  pub info_hash : Text
  pub info : Result (Text × Int64)
  pub announce_list : List (List Text)

-- What the loop that waits for the metadata receives, at a time since its start.
pub data MetaEvent : Type 0 where
  got_info timed_out : Int64 → MetaEvent
  ticked : Int64 → Stats → MetaEvent

-- What the loop of the download test receives.
pub data TestEvent : Type 0 where
  test_over : TestEvent
  test_ticked : Int64 → Stats → TestEvent

pub record PeerConn : Type 0 where
  pub remote_addr : Text
  pub download_rate : Int64
  pub bytes_read_useful_data : Int64

-- Phase 3: the lines, and gotInfo. With no event left the loop still waits: `none`.
unfoldable pub meta_loop : Int64 → List MetaEvent → Option (List Printed × Bool)
meta_loop timeout [] = none
meta_loop timeout (got_info t ∷ es) = some (received t ∷ [], true)
meta_loop timeout (timed_out t ∷ es) = some (not_received timeout ∷ [], false)
meta_loop timeout (ticked t s ∷ es) = elim (meta_loop timeout es) [
  | none ↦ none
  | some (ls, got) ↦
      some
        (meta_progress t s.shown.active_peers s.shown.connected_seeders s.half_open_peers ∷ ls, got)
]

unfoldable pub meta_phase : Bool → Int64 → List MetaEvent → Option (List Printed × Bool)
unfolding meta_loop
meta_phase true timeout es = some (
  line (codes "--- Metadata Resolution ---")
      ∷ (line (codes "[OK]   Metadata already available") ∷ []),
  true,
)
meta_phase false timeout es = elim (meta_loop timeout es) [
  | none ↦ none
  | some (ls, got) ↦ some (line (codes "--- Metadata Resolution ---") ∷ (waiting timeout ∷ ls), got)
]

-- The first `limit` of some lines, and how many there are besides.
unfoldable pub at_most : ℕ → List Printed → List Printed
at_most limit ls =
    if ltb limit (length ls) then take limit ls ++ (more (length ls - limit) ∷ []) else ls

module _ (F : Format) where
  unfoldable pub info_lines : TorrentInfo → List Printed
  unfolding at_most
  info_lines info =
      field (codes "Name") info.name
      ∷ (field (codes "Size") (format_bytes F info.total_length)
          ∷ (pieces info.num_pieces (format_bytes F info.piece_length)
              ∷ (count (codes "Files") (length info.files)
                  ∷ at_most 10 (
                      map (λ f. file (join f.best_path (codes "/")) (format_bytes F f.length))
                        info.files))))

  -- The loop of the download test, with firstByteTime and prevBytes.
  unfoldable pub test_loop : Int64 → Int64 → List TestEvent → Option (List Printed × Int64)
  test_loop first prev [] = none
  test_loop first prev (test_over ∷ es) = some ([], first)
  test_loop first prev (test_ticked t s ∷ es) =
      let bytes = s.shown.bytes_read_useful_data in
      elim (test_loop (if first == 0 && lt64 0 bytes then t else first) bytes es) [
        | none ↦ none
        | some (ls, result) ↦ some (
          progress t s.shown.active_peers s.shown.connected_seeders (format_bytes F bytes)
                (sub64 bytes prev)
              ∷ ls,
          result,
        )
      ]

  -- Phase 4, `since` the time since the wait for the metadata began.
  unfoldable pub test_lines : Int64 → Int64 → List Printed → Int64 → List Printed
  unfolding test_duration
  test_lines timeout since ls first =
      line (codes "--- Download Test ---")
      ∷ (testing (test_duration timeout since)
          ∷ (ls
              ++ ((if lt64 0 first
                    then first_data first
                    else line (codes "[WARN] No useful data received during test"))
                  ∷ [])))

  unfoldable pub test_phase : Int64 → Int64 → List TestEvent → Option (List Printed)
  unfolding test_loop test_lines
  test_phase timeout since es = elim (test_loop 0 0 es) [
    | none ↦ none
    | some (ls, first) ↦ some (test_lines timeout since ls first)
  ]

  -- Phase 6.
  unfoldable pub tracker_phase : List TrackerLine → List Printed
  tracker_phase [] = []
  tracker_phase (t ∷ ts) =
      line (codes "--- Tracker Status ---")
      ∷ map (λ l. tracker (marker l.status ++ (codes " " ++ l.url)) l.status) (t ∷ ts)

  -- Phase 7.
  unfoldable pub stats_phase : Bool → ℕ → Stats → List Printed
  stats_phase got num_pieces s =
      line (codes "--- Final Statistics ---")
      ∷ (count (codes "Total Peers") s.shown.total_peers
          ∷ (count (codes "Active Peers") s.shown.active_peers
              ∷ (count (codes "Connected Seeders") s.shown.connected_seeders
                  ∷ (count (codes "Half-Open") s.half_open_peers
                      ∷ (count (codes "Pending Peers") s.pending_peers
                          ∷ (bytes_read (format_bytes F s.bytes_read)
                                (format_bytes F s.shown.bytes_read_useful_data)
                              ∷ (if got
                                  then complete s.pieces_complete num_pieces ∷ []
                                  else [])))))))

  -- Phase 8.
  unfoldable pub peer_phase : List PeerConn → List Printed
  unfolding at_most
  peer_phase [] = []
  peer_phase (p ∷ ps) =
      count (codes "--- Connected Peers") (length (p ∷ ps))
      ∷ at_most 20 (
          map
            (λ c.
              peer c.remote_addr (format_bytes F c.download_rate)
                (format_bytes F c.bytes_read_useful_data))
            (p ∷ ps))
