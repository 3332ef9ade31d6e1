-- ===== src/TorrentMap/Monitor.antt =====
-- The goroutine that measures a new torrent every 50 milliseconds, and List.
use torrent_web_seeder.Prelude.{
  ℕ, Bool, false, ◌&&◌, ◌||◌, not, List, [], ◌∷◌, ◌++◌, ◌==◌, leb, ltb, if◌then◌else◌, Text, Result,
  ok, err, elem, Int64, lt64,
}

-- What is observed once of each torrent, in milliseconds since it was added, and the counters that
-- grow by the length of a tick.
pub data Milestone : Type 0 where
  first_peer ten_peers thirty_peers first_byte : Milestone

pub data Stall : Type 0 where
  discovery idle download : Stall

pub data Metric : Type 0 where
  observed : Milestone → ℕ → Metric
  stalled : Stall → Metric

-- The fields of t.Stats() that are read, with the milliseconds since the start.
pub record Sample : Type 0 where
  pub active_peers : ℕ
  pub bytes_read : Int64
  pub useful_data : Int64
  pub since_start : ℕ

pub record Monitor : Type 0 where
  pub last_bytes_read : Int64
  pub first_peer_recorded : Bool
  pub ten_peers_recorded : Bool
  pub thirty_peers_recorded : Bool
  pub first_byte_recorded : Bool

abbrev pub new_monitor : Monitor
new_monitor = record {
  last_bytes_read = 0;
  first_peer_recorded = false;
  ten_peers_recorded = false;
  thirty_peers_recorded = false;
  first_byte_recorded = false;
}

unfoldable pub recorded : Milestone → Monitor → Bool
recorded first_peer m = m.first_peer_recorded
recorded ten_peers m = m.ten_peers_recorded
recorded thirty_peers m = m.thirty_peers_recorded
recorded first_byte m = m.first_byte_recorded

unfoldable pub reached : Milestone → Sample → Bool
reached first_peer s = ltb 0 s.active_peers
reached ten_peers s = leb 10 s.active_peers
reached thirty_peers s = leb 30 s.active_peers
reached first_byte s = lt64 0 s.useful_data

-- The stall counter of a tick in which nothing was read.
unfoldable pub stall : Monitor → Sample → List Metric
stall m s =
    if s.bytes_read == m.last_bytes_read
    then stalled (
        if s.active_peers == 0
        then discovery
        else if not m.first_byte_recorded
        then idle
        else download)
      ∷ []
    else []

-- if !recorded && reached { Observe }
unfoldable pub observe : Milestone → Monitor → Sample → List Metric
unfolding recorded reached
observe k m s = if not (recorded k m) && reached k s then observed k s.since_start ∷ [] else []

-- One tick: no condition reads a flag that the tick has set before.
unfoldable pub tick : Monitor → Sample → Monitor × List Metric
unfolding reached
tick m s = (
  record {
    last_bytes_read = s.bytes_read;
    first_peer_recorded = m.first_peer_recorded || reached first_peer s;
    ten_peers_recorded = m.ten_peers_recorded || reached ten_peers s;
    thirty_peers_recorded = m.thirty_peers_recorded || reached thirty_peers s;
    first_byte_recorded = m.first_byte_recorded || reached first_byte s;
  },
  stall m s
      ++ (observe first_peer m s
          ++ (observe ten_peers m s ++ (observe thirty_peers m s ++ observe first_byte m s))),
)

-- The loop, over the samples of its ticks.
unfoldable pub run_monitor : Monitor → List Sample → List Metric
run_monitor m [] = []
run_monitor m (s ∷ ss) = let (m', out) = tick m s in out ++ run_monitor m' ss

-- The keys of the map that List builds from the file store's list.
unfoldable pub distinct : List Text → List Text
distinct [] = []
distinct (h ∷ hs) = let rest = distinct hs in if elem h hs then rest else h ∷ rest

-- `walk` is the order in which Go walks a map.
unfoldable pub list_torrents :
    (List Text → List Text) → (List Text → List Text) → Result (List Text) → Result (List Text)
list_torrents sort walk (err e) = err e
list_torrents sort walk (ok hs) = ok (sort (walk (distinct hs)))
