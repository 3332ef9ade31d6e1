-- ===== src/Diagnosis.antt =====
-- server/diagnose.go: what is read off the client's status, and the diagnosis that is printed.
--
-- Number formatting is a parameter. A line that is printed is data: its text, or the numbers in it.
pub mod Report
pub mod Trackers
pub mod Tables
pub mod Verdict
pub mod Phases
pub mod Command
pub mod Waits
pub mod Ending
use torrent_web_seeder.Prelude.{
  ℕ, suc, ◌+◌, Bool, true, false, ◌&&◌, ◌||◌, not, Option, none, some, List, [], ◌∷◌, ◌++◌, ◌==◌,
  leb, ltb, if◌then◌else◌, length, take, drop, Text, text_eq, codes, is_nil, split, trim, is_space,
  has_prefix, contains, index_byte, Int64, lt64, le64, sub64,
}

pub record TrackerLine : Type 0 where
  pub url : Text
  pub status : Text

-- "URL"  status...
unfoldable pub parse_tracker : Text → Option TrackerLine
parse_tracker trimmed = elim (index_byte b'"' (drop 1 trimmed)) [
  | none ↦ none
  | some idx ↦
      some (record {
        url = take idx (drop 1 trimmed);
        status = trim is_space (drop (idx + 2) trimmed);
      })
]

abbrev pub trackers_header : Text
trackers_header = codes "Enabled trackers:"

-- trimmed == "" || (!strings.HasPrefix(trimmed, "\"") && !strings.HasPrefix(trimmed, "URL"))
unfoldable pub ends_trackers : Text → Bool
ends_trackers trimmed =
    is_nil trimmed
    || (not (has_prefix trimmed (codes "\"")) && not (has_prefix trimmed (codes "URL")))

unfoldable pub add_tracker : Option TrackerLine → List TrackerLine → List TrackerLine
add_tracker none results = results
add_tracker (some t) results = t ∷ results

-- The loop over the lines; the flag is inTrackers.
unfoldable pub extract_from : Bool → List Text → List TrackerLine
extract_from in_trackers [] = []
extract_from in_trackers (line ∷ lines) =
    let inside = extract_from true lines in
    let outside = extract_from false lines in
    let trimmed = trim is_space line in
    if text_eq trimmed trackers_header
    then inside
    else if in_trackers
    then (if ends_trackers trimmed
        then outside
        else if has_prefix trimmed (codes "URL")
        then inside
        else add_tracker (parse_tracker trimmed) inside)
    else outside

unfoldable pub extract_tracker_lines : Text → List TrackerLine
unfolding extract_from
extract_tracker_lines status_output = extract_from false (split 10 status_output)

unfoldable pub tracker_failed : Text → Bool
tracker_failed status =
    contains status (codes "failure reason")
    || (contains status (codes "error")
        || (contains status (codes "refused") || contains status (codes "timeout")))

-- The line that is printed for a tracker.
unfoldable pub marker : Text → Text
unfolding tracker_failed
marker status =
    if tracker_failed status
    then codes "[FAIL]"
    else if contains status (codes "announcing")
    then codes "[..]  "
    else codes "[OK]  "

unfoldable pub tracker_failures : List TrackerLine → ℕ
unfolding tracker_failed
tracker_failures [] = 0
tracker_failures (t ∷ ts) =
    let rest = tracker_failures ts in if tracker_failed t.status then suc rest else rest

-- How long the download is tested, in nanoseconds: 30 seconds, or what is left of the timeout, but
-- at least 5 seconds.
unfoldable pub test_duration : Int64 → Int64 → Int64
test_duration timeout since =
    let remaining = sub64 timeout since in
    let longest : Int64 = if lt64 remaining 30_000_000_000 then remaining else 30_000_000_000 in
    if lt64 longest 5_000_000_000 then 5_000_000_000 else longest

-- The fields of torrent.TorrentStats that the diagnosis reads.
pub record TorrentStats : Type 0 where
  pub total_peers : ℕ
  pub active_peers : ℕ
  pub connected_seeders : ℕ
  pub bytes_read_useful_data : Int64

-- `decimal` is %d, and `tenths` is %.1f of the quotient of two numbers as float64.
pub record Format : Type 0 where
  pub decimal : Int64 → Text
  pub tenths : Int64 → Int64 → Text

pub data Line : Type 0 where
  said : Text → Line
  peers : ℕ → ℕ → Line  -- Peers: %d active, %d seeders
  downloaded : Text → Line  -- Downloaded: %s useful data
  note : ℕ → ℕ → Line  -- Note: %d/%d trackers failed

abbrev pub kb : Int64
kb = 1024

abbrev pub mb : Int64
mb = 1_048_576

abbrev pub gb : Int64
gb = 1_073_741_824

abbrev pub tb : Int64
tb = 1_099_511_627_776

unfoldable pub format_bytes : Format → Int64 → Text
format_bytes F b =
    if lt64 b 0
    then codes "0 B"
    else if le64 tb b
    then F.tenths b tb ++ codes " TB"
    else if le64 gb b
    then F.tenths b gb ++ codes " GB"
    else if le64 mb b
    then F.tenths b mb ++ codes " MB"
    else if le64 kb b
    then F.tenths b kb ++ codes " KB"
    else F.decimal b ++ codes " B"
