-- ===== src/TorrentMap.antt =====
-- server/services/torrent_map.go: the torrents that the client holds, and the timers that drop them.
--
-- Touch, Get and the end of a timer's goroutine hold the mutex, so each is one step. The torrent
-- client and the two stores are parameters; each answers anew at every call.
pub mod Timers
pub mod Running
pub mod Kept
pub mod Dropping
pub mod Monitor
pub mod Measured
use torrent_web_seeder.Prelude.{
  ℕ, ◌+◌, ◌-◌, Bool, true, false, Option, none, some, List, [], ◌∷◌, ◌≤◌, ◌≡◌, if◌then◌else◌,
  lookup, insert, delete, Text, text_Eq,
}

-- The timer of a torrent runs until a deadline in nanoseconds, or its goroutine has received from
-- its channel and is on its way to the mutex.
pub data Timer : Type 0 where
  runs_until : ℕ → Timer
  fired : Timer

-- `timers` is s.timers; `loaded` holds the torrents that were added to the client and not dropped;
-- `active` is the gauge promActiveTorrentCount.
pub record TorrentMap : Type 0 where
  pub timers : List (Text × Timer)
  pub loaded : List (Text × Bool)
  pub active : ℕ

abbrev pub new_torrent_map : TorrentMap
new_torrent_map = record { timers = []; loaded = []; active = 0 }

-- time.Duration(600) * time.Second
abbrev pub ttl : ℕ
ttl = 600_000_000_000

-- What a store answers: an error, no metadata, or metadata.
pub data Answer (M : Type 0) : Type 0 where
  store_error missing : Answer M
  found : M → Answer M

-- What the client and the stores answer during one call of Get. AddTorrent either fails or loads
-- the torrent of the metadata.
pub record Sources : Type 1 where
  pub MetaInfo : Type 0
  pub client_ready : Bool
  pub file_store : Text → Answer MetaInfo
  pub torrent_store : Text → Answer MetaInfo
  pub can_add : MetaInfo → Bool

pub data Outcome : Type 0 where
  failed no_torrent torrent : Outcome

-- A goroutine that has received keeps on its way, whatever happens to the timer.
unfoldable pub reset : ℕ → Timer → Timer
reset now (runs_until d) = runs_until (now + ttl)
reset now fired = fired

unfoldable pub touch_torrent : ℕ → Text → TorrentMap → TorrentMap
unfolding reset
touch_torrent now h s = elim (lookup h s.timers) [
  | none ↦ s
  | some ti ↦ record s { timers = insert h (reset now ti) s.timers }
]

-- Get behind AddTorrent.
unfoldable pub keep_torrent : ℕ → Text → TorrentMap → TorrentMap
unfolding reset
keep_torrent now h s = elim (lookup h s.timers) [
  | some ti ↦ record s {
    timers = insert h (reset now ti) s.timers;
    loaded = insert h true s.loaded;
  }
  | none ↦ record s {
    timers = insert h (runs_until (now + ttl)) s.timers;
    loaded = insert h true s.loaded;
    active = s.active + 1;
  }
]

-- The metadata: from the file store, or else from the torrent store.
unfoldable pub find_info : (o : Sources) → Text → Answer o.MetaInfo
find_info o h = elim (o.file_store h) [
  | store_error ↦ store_error
  | missing ↦ o.torrent_store h
  | found m ↦ found m
]

unfoldable pub get_torrent : ℕ → Sources → Text → TorrentMap → TorrentMap × Outcome
unfolding find_info
get_torrent now o h s =
    if o.client_ready
    then elim (find_info o h) [
      | store_error ↦ (s, failed)
      | missing ↦ (s, no_torrent)
      | found m ↦ if o.can_add m then (keep_torrent now h s, torrent) else (s, failed)
    ]
    else (s, failed)

-- A goroutine receives from the channel of a timer whose deadline has passed.
unfoldable pub fire : Text → TorrentMap → TorrentMap
fire h s = record s { timers = insert h fired s.timers }

-- The rest of the goroutine: the torrent is dropped.
unfoldable pub drop_torrent : Text → TorrentMap → TorrentMap
drop_torrent h s = record s {
  timers = delete h s.timers;
  loaded = delete h s.loaded;
  active = s.active - 1;
}

-- One step at a given time. Only a timer whose deadline has passed fires.
pub data Step (now : ℕ) : TorrentMap → TorrentMap → Type 1 where
  touched : {s : TorrentMap} → (h : Text) → Step now s (touch_torrent now h s)
  got : {s : TorrentMap} → (o : Sources) (h : Text) → Step now s (get_torrent now o h s).0
  fires :
      {s : TorrentMap}
      → (h : Text) (d : ℕ) → lookup h s.timers ≡ some (runs_until d)
      → d ≤ now
      → Step now s (fire h s)
  drops :
      {s : TorrentMap} → (h : Text) → lookup h s.timers ≡ some fired → Step now s (drop_torrent h s)

-- Steps at times that never go back, from one time to another.
pub data Steps : ℕ → TorrentMap → ℕ → TorrentMap → Type 1 where
  here : {now : ℕ} {s : TorrentMap} → Steps now s now s
  next :
      {now later end : ℕ} {s t u : TorrentMap}
      → now ≤ later
      → Step later s t
      → Steps later t end u
      → Steps now s end u
